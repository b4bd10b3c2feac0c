-- ===== src/Sql/First.antt =====
-- ORDER BY ... LIMIT 1 picks a row that no row stands before.
use sim_project.Common.{
  All-mono, All-at, subst, ◌≡◌, refl, List, [], ◌∷◌, Option, none, some, arith, inl, inr, In, All,
  Ordering, true,
}
use sim_project.Sql.{Comparator, first_by, better, better_first}
use sim_project.Sql.Order.{IsOrder, not_after, IsOrder-refl}

-- `m` is one of the rows, and no row comes before it.
abbrev pub IsFirst : {A : Type 0} → Comparator A → A → List A → Type 0
IsFirst c m xs = In m xs × All (λ x. not_after (c m x) ≡ true) xs

the_some : {A : Type 0} {a b : A} → some a ≡ some b → a ≡ b
the_some e = cc

module _ {A : Type 0} (c : Comparator A) (o : IsOrder c) where
  before-All :
      (x y : A) (xs : List A)
      → not_after (c x y) ≡ true
      → All (λ z. not_after (c y z) ≡ true) xs
      → All (λ z. not_after (c x z) ≡ true) xs
  before-All x y xs h =
      All-mono (λ z. not_after (c y z) ≡ true) (λ z. not_after (c x z) ≡ true)
        (λ z. o.trans x y z h) xs

  better-IsFirst :
      (x y : A) (xs : List A) (r : Ordering)
      → c x y ≡ r
      → IsFirst c y xs
      → IsFirst c (better x y r) (x ∷ xs)
  better-IsFirst x y xs Ordering.lt e (i, h) =
      (inl refl, (rw (IsOrder-refl c o x), before-All x y xs (rw e) h))
  better-IsFirst x y xs Ordering.eq e (i, h) =
      (inl refl, (rw (IsOrder-refl c o x), before-All x y xs (rw e) h))
  better-IsFirst x y xs Ordering.gt e (i, h) = (inr i, (ground (arith, o.swap x y), h))

  better_first-IsFirst :
      (x m : A) (xs : List A) (rest : Option A)
      → ((y : A) → rest ≡ some y → IsFirst c y xs)
      → (rest ≡ none → xs ≡ [])
      → better_first c x rest ≡ some m
      → IsFirst c m (x ∷ xs)
  better_first-IsFirst x m xs none h empty e =
      let q : x ≡ m = cc in
      rw (← q, empty refl) (inl refl, (ground (arith, IsOrder-refl c o x), tt))
  better_first-IsFirst x m xs (some y) h empty e =
      subst (λ r. IsFirst c r (x ∷ xs)) (the_some e) (better-IsFirst x y xs (c x y) refl (h y refl))

  pub first_by-none : (xs : List A) → first_by c xs ≡ none → xs ≡ []
  unfolding first_by
  first_by-none [] e = refl
  first_by-none (x ∷ xs) e = ground arith

  pub first_by-IsFirst : (xs : List A) (m : A) → first_by c xs ≡ some m → IsFirst c m xs
  unfolding first_by
  first_by-IsFirst [] m e = cc
  first_by-IsFirst (x ∷ xs) m e =
      better_first-IsFirst x m xs (first_by c xs) (first_by-IsFirst xs) (first_by-none xs) e

  -- A row that is first is the one picked, up to the order.
  pub IsFirst-first_by :
      (xs : List A) (m n : A) → IsFirst c m xs → first_by c xs ≡ some n → c m n ≡ Ordering.eq
  IsFirst-first_by xs m n h e =
      let (i, b) = first_by-IsFirst xs n e in
      ground (
        arith,
        o.swap m n,
        All-at (λ z. not_after (c m z) ≡ true) n xs h.1 i,
        All-at (λ z. not_after (c n z) ≡ true) m xs b h.0,
      )
