-- ===== src/Sql/Moved.antt =====
-- An UPDATE after which no row passes its test, and what comes after it with the same test.
use sim_project.Common.{
  ◌≡◌, refl, ap, Bool, true, false, if◌then◌else◌, Bool-cases, In, inl, inr, keep, List, [], ◌∷◌,
  map,
}
use sim_project.Sql.{update_where, delete_where}

module _ {A : Type 0} (test : A → Bool) (change : A → A)
    (moved : (a : A) → test (change a) ≡ false) where
  if_moved : (a : A) (t : Bool) → test a ≡ t → test (if t then change a else a) ≡ false
  if_moved a true e = moved a
  if_moved a false e = e

  pub update_where-moved :
      (later : A → A) (rows : List A)
      → update_where test later (update_where test change rows) ≡ update_where test change rows
  unfolding update_where
  update_where-moved later [] = refl
  update_where-moved later (a ∷ rows) = cc (
    if_same later (if test a then change a else a) (if_moved a (test a) refl),
    update_where-moved later rows,
  )
    where
      if_same : (later : A → A) (b : A) → test b ≡ false → (if test b then later b else b) ≡ b
      if_same later b n = rw n refl

  pub delete_where-moved :
      (rows : List A)
      → delete_where test (update_where test change rows) ≡ update_where test change rows
  unfolding update_where delete_where keep
  delete_where-moved [] = refl
  delete_where-moved (a ∷ rows) =
      let n = if_moved a (test a) refl in
      rw n (ap (λ (l : List A). (if test a then change a else a) ∷ l) (delete_where-moved rows))

-- A DELETE that reads columns which a change of the rows keeps.
pub map-delete_where :
    {A : Type 0} (test : A → Bool) (f : A → A)
    → ((a : A) → test (f a) ≡ test a)
    → (rows : List A) → map f (delete_where test rows) ≡ delete_where test (map f rows)
unfolding delete_where keep
map-delete_where test f same [] = refl
map-delete_where test f same (a ∷ rows) = elim (Bool-cases (test a)) [
  | inl t ↦ rw (same a, t) (map-delete_where test f same rows)
  | inr n ↦ rw (same a, n) (ap (λ l. f a ∷ l) (map-delete_where test f same rows))
]

-- A DELETE that finds nothing.
pub delete_where-nothing :
    {A : Type 0} (test : A → Bool) (rows : List A)
    → ((a : A) → In a rows → test a ≡ false)
    → delete_where test rows ≡ rows
unfolding delete_where keep
delete_where-nothing test [] n = refl
delete_where-nothing test (a ∷ rows) n =
    rw (n a (inl refl)) (ap (λ l. a ∷ l) (delete_where-nothing test rows (λ b i. n b (inr i))))
