-- ===== src/Sql/Sorted.antt =====
-- ORDER BY.
use sim_project.Common.{Bool-cases, List, [], ◌∷◌, In, inl, inr}
use sim_project.Sql.{Comparator, goes_first, insert_by, order_by}

-- ORDER BY loses no row.
In-insert_by :
    {A : Type 0} (c : Comparator A) (a x : A) (ys : List A)
    → In a (x ∷ ys)
    → In a (insert_by c x ys)
unfolding insert_by
In-insert_by c a x [] i = i
In-insert_by c a x (y ∷ ys) i = elim (Bool-cases (goes_first (c x y))) [
  | inl t ↦ rw t i
  | inr n ↦ rw n (elim i [
    | inl e ↦ inr (In-insert_by c a x ys (inl e))
    | inr (inl e) ↦ inl e
    | inr (inr j) ↦ inr (In-insert_by c a x ys (inr j))
  ])
]

pub In-order_by :
    {A : Type 0} (c : Comparator A) (a : A) (xs : List A) → In a xs → In a (order_by c xs)
unfolding order_by
In-order_by c a [] i = i
In-order_by c a (x ∷ xs) (inl e) = In-insert_by c a x (order_by c xs) (inl e)
In-order_by c a (x ∷ xs) (inr i) = In-insert_by c a x (order_by c xs) (inr (In-order_by c a xs i))
