-- ===== src/Merging/Ascending.antt =====
-- Ascending lists of new ids.
use sim_project.Common.{
  ℕ, zero, suc, ◌+◌, ◌≤◌, ◌<◌, ◌≡◌, ◌≢◌, refl, List, [], ◌∷◌, some, All, length, get_elem?, arith,
}

-- Strictly ascending, from `lo` on and below `hi`.
abbrev pub Ascends : ℕ → ℕ → List ℕ → Type 0
Ascends lo hi [] = lo ≤ hi
Ascends lo hi (x ∷ xs) = (lo ≤ x) × Ascends (x + 1) hi xs

abbrev pub Disjoint : List ℕ → List ℕ → Type 0
Disjoint xs ys = All (λ x. All (λ y. x ≢ y) ys) xs

pub Ascends-below : (lo lo' hi : ℕ) (xs : List ℕ) → lo' ≤ lo → Ascends lo hi xs → Ascends lo' hi xs
Ascends-below lo lo' hi [] h a = omega arith
Ascends-below lo lo' hi (x ∷ xs) h a = (omega arith, a.1)

-- A number below all of an ascending list is not in it.
pub Ascends-ne : (n lo hi : ℕ) (xs : List ℕ) → n < lo → Ascends lo hi xs → All (λ y. n ≢ y) xs
Ascends-ne n lo hi [] h a = tt
Ascends-ne n lo hi (x ∷ xs) h a = (omega arith, Ascends-ne n (x + 1) hi xs (omega arith) a.1)

pub Disjoint-right :
    (n lo hi : ℕ) (xs ys : List ℕ)
    → n < lo
    → Ascends lo hi xs
    → Disjoint xs ys
    → Disjoint xs (n ∷ ys)
Disjoint-right n lo hi [] ys h a d = tt
Disjoint-right n lo hi (x ∷ xs) ys h a d =
    ((omega arith, d.0), Disjoint-right n (x + 1) hi xs ys (omega arith) a.1 d.1)

last_below : (lo hi : ℕ) (xs : List ℕ) → Ascends lo hi xs → lo ≤ hi
last_below lo hi [] a = a
last_below lo hi (x ∷ xs) a = omega (arith, last_below (x + 1) hi xs a.1)

-- Every place in the list holds a number of the range.
pub get_elem?-Ascends :
    (lo hi : ℕ) (xs : List ℕ) (i : ℕ)
    → i < length xs
    → Ascends lo hi xs
    → (n : ℕ) × (get_elem? xs i ≡ some n) × (lo + i ≤ n) × (n < hi)
get_elem?-Ascends lo hi [] i h a = absurd (omega arith)
get_elem?-Ascends lo hi (x ∷ xs) zero h a =
    (x, refl, omega arith, omega (arith, last_below (x + 1) hi xs a.1))
get_elem?-Ascends lo hi (x ∷ xs) (suc i) h a =
    let (n, e, p, q) = get_elem?-Ascends (x + 1) hi xs i (omega arith) a.1 in (n, e, omega arith, q)

pub in_range : (xs : List ℕ) (i n : ℕ) → get_elem? xs i ≡ some n → i < length xs
in_range [] i n e = cc
in_range (x ∷ xs) zero n e = omega arith
in_range (x ∷ xs) (suc i) n e = omega (arith, in_range xs i n e)

pub get_elem?_lt :
    (lo hi : ℕ) (xs : List ℕ) (i j m n : ℕ)
    → i < j
    → Ascends lo hi xs
    → get_elem? xs i ≡ some m
    → get_elem? xs j ≡ some n
    → m < n
get_elem?_lt lo hi [] i j m n h a p q = cc
get_elem?_lt lo hi (x ∷ xs) i zero m n h a p q = absurd (omega arith)
get_elem?_lt lo hi (x ∷ xs) zero (suc j) m n h a p q =
    let (k, e, b, c) = get_elem?-Ascends (x + 1) hi xs j (in_range xs j n q) a.1 in ground arith
get_elem?_lt lo hi (x ∷ xs) (suc i) (suc j) m n h a p q =
    get_elem?_lt (x + 1) hi xs i j m n (omega arith) a.1 p q

ne_at :
    (x : ℕ) (ys : List ℕ) (j m n : ℕ)
    → All (λ y. x ≢ y) ys
    → some x ≡ some m
    → get_elem? ys j ≡ some n
    → m ≢ n
ne_at x [] j m n d p q = cc
ne_at x (y ∷ ys) zero m n d p q = ground arith
ne_at x (y ∷ ys) (suc j) m n d p q = ne_at x ys j m n d.1 p q

pub get_elem?-Disjoint :
    (xs ys : List ℕ) (i j m n : ℕ)
    → Disjoint xs ys
    → get_elem? xs i ≡ some m
    → get_elem? ys j ≡ some n
    → m ≢ n
get_elem?-Disjoint [] ys i j m n d p q = cc
get_elem?-Disjoint (x ∷ xs) ys zero j m n d p q = ne_at x ys j m n d.0 p q
get_elem?-Disjoint (x ∷ xs) ys (suc i) j m n d p q = get_elem?-Disjoint xs ys i j m n d.1 p q
