-- ===== src/Common/Lists.antt =====
-- Lists measured by native numbers, predicates over lists by recursion, filtering by a test.
use Prim.Native.Nat.{ℕ, zero, suc}
use mathlib.Core.Path.{◌≡◌, refl, ap}
use mathlib.Core.Logic.{◌⊎◌, inl, inr}
use mathlib.Core.Bool.{Bool, true}
use mathlib.Core.List.{List, [], ◌∷◌, map}
use mathlib.Core.Option.{Option, none, some}
use sim_project.Common.Tests.{if◌then◌else◌, Bool-cases}

module _ {ℓ} {A : Type ℓ} where
  abbrev pub length : List A → ℕ
  length [] = 0
  length (x ∷ xs) = suc (length xs)

  abbrev pub get_elem? : List A → ℕ → Option A
  get_elem? [] i = none
  get_elem? (x ∷ xs) zero = some x
  get_elem? (x ∷ xs) (suc i) = get_elem? xs i

  -- The sublist of the entries that pass a Boolean test.
  unfoldable pub keep : (A → Bool) → List A → List A
  keep p [] = []
  keep p (x ∷ xs) = if p x then x ∷ keep p xs else keep p xs

  abbrev pub All {κ} : (A → Type κ) → List A → Type κ
  All P [] = Unit
  All P (x ∷ xs) = P x × All P xs

-- Membership with its witness, by recursion.
abbrev pub In : {A : Type 0} → A → List A → Type 0
In a [] = ⊥
In a (x ∷ xs) = (a ≡ x) ⊎ In a xs

pub All-at : {A : Type 0} (P : A → Type 0) (a : A) (xs : List A) → All P xs → In a xs → P a
All-at P a [] h m = elim m [ ]
All-at P a (x ∷ xs) h (inl e) = rw e h.0
All-at P a (x ∷ xs) h (inr m) = All-at P a xs h.1 m

pub All-mono :
    {A : Type 0} (P Q : A → Type 0) → ((a : A) → P a → Q a) → (xs : List A) → All P xs → All Q xs
All-mono P Q f [] h = tt
All-mono P Q f (x ∷ xs) h = (f x h.0, All-mono P Q f xs h.1)

pub In-map : {A B : Type 0} (f : A → B) (a : A) (xs : List A) → In a xs → In (f a) (map f xs)
In-map f a [] h = h
In-map f a (x ∷ xs) (inl e) = inl (ap f e)
In-map f a (x ∷ xs) (inr m) = inr (In-map f a xs m)

keep_cons :
    {A : Type 0} (p : A → Bool) (a x : A) (xs : List A)
    → p x ≡ true
    → (In a (keep p xs) → In a xs × (p a ≡ true))
    → In a (x ∷ keep p xs)
    → In a (x ∷ xs) × (p a ≡ true)
keep_cons p a x xs t rest (inl e) = (inl e, rw e t)
keep_cons p a x xs t rest (inr m) = (inr (rest m).0, (rest m).1)

-- What passes the test, and nothing else, is kept.
pub In-keep :
    {A : Type 0} (p : A → Bool) (a : A) (xs : List A) → In a xs → p a ≡ true → In a (keep p xs)
unfolding keep
In-keep p a [] m h = m
In-keep p a (x ∷ xs) (inl e) h = let h' : p x ≡ true = rw (← e) h in rw h' (inl e)
In-keep p a (x ∷ xs) (inr m) h = elim (Bool-cases (p x)) [
  | inl t ↦ rw t (inr (In-keep p a xs m h))
  | inr t ↦ rw t (In-keep p a xs m h)
]

pub keep-In :
    {A : Type 0} (p : A → Bool) (a : A) (xs : List A) → In a (keep p xs) → In a xs × (p a ≡ true)
unfolding keep
keep-In p a [] m = elim m [ ]
keep-In p a (x ∷ xs) m = elim (Bool-cases (p x)) [
  | inl t ↦ keep_cons p a x xs t (keep-In p a xs) (rw t at m)
  | inr t ↦ let (i, h) = keep-In p a xs (rw t at m) in (inr i, h)
]

-- An entry of an image comes from an entry.
pub map-In :
    {A B : Type 0} (f : A → B) (b : B) (xs : List A)
    → In b (map f xs)
    → (a : A) × In a xs × (b ≡ f a)
map-In f b [] m = elim m [ ]
map-In f b (x ∷ xs) (inl e) = (x, inl refl, e)
map-In f b (x ∷ xs) (inr m) = let (a, i, e) = map-In f b xs m in (a, inr i, e)
