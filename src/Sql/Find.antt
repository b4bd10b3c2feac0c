-- ===== src/Sql/Find.antt =====
-- What a SELECT of one row finds.
use sim_project.Common.{
  if◌then◌else◌, ◌≡◌, refl, sym, ap, Bool, true, false, Bool-cases, keep, List, [], ◌∷◌, Option,
  none, some, Option-cases, In, ◌⊎◌, inl, inr, arith, subst,
}
use sim_project.Sql.{find_where, update_where, delete_where}

pub find_where-In :
    {A : Type 0} (test : A → Bool) (xs : List A) (a : A)
    → find_where test xs ≡ some a
    → In a xs × (test a ≡ true)
unfolding find_where
find_where-In test [] a e = cc
find_where-In test (x ∷ xs) a e = elim (Bool-cases (test x)) [
  | inl t ↦ let q : x ≡ a = ground arith in (inl (sym q), subst (λ y. test y ≡ true) q t)
  | inr t ↦ let (i, h) = find_where-In test xs a (ground arith) in (inr i, h)
]

pub find_where-none :
    {A : Type 0} (test : A → Bool) (xs : List A) (a : A)
    → find_where test xs ≡ none
    → In a xs
    → test a ≡ false
unfolding find_where
find_where-none test [] a e i = elim i [ ]
find_where-none test (x ∷ xs) a e i = elim (Bool-cases (test x)) [
  | inl t ↦ absurd (ground arith)
  | inr n ↦ elim i [ inl s ↦ rw s n | inr j ↦ find_where-none test xs a (ground arith) j ]
]

-- The first row, or none.
pub find_where-cases :
    {A : Type 0} (test : A → Bool) (xs : List A)
    → ((find_where test xs ≡ none) × ((a : A) → In a xs → test a ≡ false))
      ⊎ ((a : A) × (find_where test xs ≡ some a) × In a xs × (test a ≡ true))
find_where-cases test xs = elim (Option-cases (find_where test xs)) [
  | inl e ↦ inl (e, λ a i. find_where-none test xs a e i)
  | inr (a, e) ↦ let (i, t) = find_where-In test xs a e in inr (a, e, i, t)
]

-- A row that passes a test, or none does.
pub exists_or_none :
    {A : Type 0} (test : A → Bool) (rows : List A)
    → ((r : A) × In r rows × (test r ≡ true)) ⊎ ((r : A) → In r rows → test r ≡ false)
exists_or_none test [] = inr (λ r i. elim i [ ])
exists_or_none test (x ∷ rows) = elim (Bool-cases (test x)) [
  | inl t ↦ inl (x, inl refl, t)
  | inr f ↦ elim (exists_or_none test rows) [
    | inl (r, i, t) ↦ inl (r, inr i, t)
    | inr n ↦ inr (λ r i. elim i [ inl e ↦ rw e f | inr j ↦ n r j ])
  ]
]

module _ {A : Type 0} (test : A → Bool) (change : A → A) where
  abbrev pub changed_row : A → A
  changed_row r = if test r then change r else r

  abbrev pub changed_if_found : Option A → Option A
  changed_if_found none = none
  changed_if_found (some r) = some (changed_row r)

  changed-same :
      (p : A → Bool)
      → ((r : A) → p (change r) ≡ p r)
      → (r : A) (t : Bool) → p (if t then change r else r) ≡ p r
  changed-same p same r true = same r
  changed-same p same r false = refl

  -- An UPDATE that does not change what is searched for: the changed row is found.
  pub find_where-update :
      (p : A → Bool)
      → ((r : A) → p (change r) ≡ p r)
      → (rows : List A)
      → find_where p (update_where test change rows) ≡ changed_if_found (find_where p rows)
  unfolding find_where update_where
  find_where-update p same [] = refl
  find_where-update p same (x ∷ rows) = elim (Bool-cases (p x)) [
    | inl t ↦ rw (changed-same p same x (test x), t) refl
    | inr n ↦ rw (changed-same p same x (test x), n) (find_where-update p same rows)
  ]

  -- A DELETE of other rows.
  pub find_where-delete :
      (p : A → Bool)
      → ((r : A) → test r ≡ true → p r ≡ false)
      → (rows : List A) → find_where p (delete_where test rows) ≡ find_where p rows
  unfolding find_where delete_where keep
  find_where-delete p other [] = refl
  find_where-delete p other (x ∷ rows) = elim (Bool-cases (test x)) [
    | inl t ↦ rw (t, other x t) (find_where-delete p other rows)
    | inr n ↦
        rw n (ap (λ (o : Option A). if p x then some x else o) (find_where-delete p other rows))
  ]
