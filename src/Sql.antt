-- ===== src/Sql.antt =====
-- What the SQL statements of the sources mean, over a table that is the list of its rows:
-- UPDATE ... WHERE, SELECT ... WHERE, ORDER BY with several keys, LIMIT 1.
pub mod Order
pub mod First
pub mod Distinct
pub mod Find
pub mod Moved
pub mod Sorted
use sim_project.Common.{
  true, false, Bool, List, [], ◌∷◌, map, Option, none, some, Ordering, ℤ, compare_ℤ, if◌then◌else◌,
  keep, not,
}

-- UPDATE ... SET change WHERE test.
unfoldable pub update_where {ℓ} : {A : Type ℓ} → (A → Bool) → (A → A) → List A → List A
update_where test change = map (λ r. if test r then change r else r)

abbrev pub Comparator {ℓ} : Type ℓ → Type ℓ
Comparator A = A → A → Ordering

-- The next sort key decides among rows that the keys before it leave equal.
abbrev pub then_by : Ordering → Ordering → Ordering
then_by Ordering.lt next = Ordering.lt
then_by Ordering.eq next = next
then_by Ordering.gt next = Ordering.gt

abbrev pub descending : Ordering → Ordering
descending Ordering.lt = Ordering.gt
descending Ordering.eq = Ordering.eq
descending Ordering.gt = Ordering.lt

-- A nullable column: NULL sorts below every value.
abbrev pub compare_nullable : Option ℤ → Option ℤ → Ordering
compare_nullable none none = Ordering.eq
compare_nullable none (some b) = Ordering.lt
compare_nullable (some a) none = Ordering.gt
compare_nullable (some a) (some b) = compare_ℤ a b

abbrev better {ℓ} : {A : Type ℓ} → A → A → Ordering → A
better x y Ordering.gt = y
better x y _ = x

abbrev better_first {ℓ} : {A : Type ℓ} → Comparator A → A → Option A → Option A
better_first c x none = some x
better_first c x (some y) = some (better x y (c x y))

-- ORDER BY c LIMIT 1.
unfoldable pub first_by {ℓ} : {A : Type ℓ} → Comparator A → List A → Option A
first_by c [] = none
first_by c (x ∷ xs) = better_first c x (first_by c xs)

-- SELECT ... WHERE test, of which the first row is read.
unfoldable pub find_where {ℓ} : {A : Type ℓ} → (A → Bool) → List A → Option A
find_where test [] = none
find_where test (x ∷ xs) = if test x then some x else find_where test xs

-- DELETE FROM ... WHERE test.
unfoldable pub delete_where {ℓ} : {A : Type ℓ} → (A → Bool) → List A → List A
delete_where test = keep (λ r. not (test r))

-- SELECT DISTINCT, or GROUP BY, of which the order of the rows is that of the first ones.
unfoldable pub distinct_by {ℓ} : {A : Type ℓ} → (A → A → Bool) → List A → List A
distinct_by same [] = []
distinct_by same (x ∷ xs) = x ∷ keep (λ y. not (same x y)) (distinct_by same xs)

-- ORDER BY c.
abbrev pub goes_first : Ordering → Bool
goes_first Ordering.gt = false
goes_first _ = true

unfoldable pub insert_by {ℓ} : {A : Type ℓ} → Comparator A → A → List A → List A
insert_by c x [] = x ∷ []
insert_by c x (y ∷ ys) =
    let rest = insert_by c x ys in if goes_first (c x y) then x ∷ y ∷ ys else y ∷ rest

unfoldable pub order_by {ℓ} : {A : Type ℓ} → Comparator A → List A → List A
unfolding insert_by
order_by c [] = []
order_by c (x ∷ xs) = insert_by c x (order_by c xs)
