-- ===== src/Sql/Distinct.antt =====
-- SELECT DISTINCT loses no row.
use sim_project.Common.{
  ◌≡◌, sym, ap, Bool, true, not, Bool-cases, In-keep, keep-In, List, [], ◌∷◌, In, inl, inr,
}
use sim_project.Sql.{distinct_by}

pub In-distinct_by :
    {A : Type 0} (same : A → A → Bool)
    → ((x y : A) → same x y ≡ true → x ≡ y)
    → (x : A) (xs : List A) → In x xs
    → In x (distinct_by same xs)
unfolding distinct_by
In-distinct_by same eq x [] i = i
In-distinct_by same eq x (y ∷ ys) (inl e) = inl e
In-distinct_by same eq x (y ∷ ys) (inr i) = elim (Bool-cases (same y x)) [
  | inl t ↦ inl (sym (eq y x t))
  | inr f ↦ inr (
      In-keep (λ z. not (same y z)) x (distinct_by same ys) (In-distinct_by same eq x ys i)
        (ap not f))
]

-- And it makes up none.
pub distinct_by-In :
    {A : Type 0} (same : A → A → Bool) (x : A) (xs : List A) → In x (distinct_by same xs) → In x xs
unfolding distinct_by
distinct_by-In same x [] i = i
distinct_by-In same x (y ∷ ys) (inl e) = inl e
distinct_by-In same x (y ∷ ys) (inr i) =
    inr (distinct_by-In same x ys (keep-In (λ z. not (same y z)) x (distinct_by same ys) i).0)
