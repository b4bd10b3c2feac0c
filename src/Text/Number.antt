-- ===== src/Text/Number.antt =====
-- `str2num` of string_transform.hh for integral types. The value so far is kept as its distance from 0,
-- which the checked multiplication and addition compare with that of the greatest or the smallest
-- number of the type.
use sim_project.Common.{
  ℕ, zero, suc, ◌≡◌, ◌↔◌, ◌≤◌, refl, ◌+◌, ◌*◌, ◌-◌, ◌^◌, Bool, true, false, not, ◌&&◌, ◌||◌, ◌==◌,
  ltb, leb, if◌then◌else◌, Bool-cases, inl, inr, [], ◌∷◌, Option, none, some, Bytes, ℤ, pos, negsuc,
  compare_ℤ, Ordering, arith,
}
use sim_project.Text.{is_digit}

-- std::numeric_limits
pub record IntegralType : Type 0 where
  pub is_unsigned : Bool
  pub max : ℕ
  pub below_zero : ℕ  -- -min()

abbrev pub uint8 : IntegralType
uint8 = record { is_unsigned = true; max = 2 ^ 8 - 1; below_zero = 0 }

abbrev pub furthest : IntegralType → Bool → ℕ
furthest t minus = if minus then t.below_zero else t.max

-- The number at a distance from 0.
abbrev pub with_sign : Bool → ℕ → ℤ
with_sign false n = pos n
with_sign true zero = pos 0
with_sign true (suc n) = negsuc n

-- The loop.
unfoldable pub read_digits : IntegralType → Bool → ℕ → Bytes → Option ℤ
read_digits t minus res [] = some (with_sign minus res)
read_digits t minus res (c ∷ str) =
    let rest = read_digits t minus (res * 10 + (c - b'0')) str in
    if not (is_digit c)
    then none
    else if ltb (furthest t minus) (res * 10)
    then none
    else if ltb (furthest t minus) (res * 10 + (c - b'0'))
    then none
    else rest

-- From the check of the first digit on; the text is empty after a minus only.
unfoldable pub read_first : IntegralType → Bool → Bytes → Option ℤ
unfolding read_digits
read_first t minus [] = none
read_first t minus (c ∷ str) = if not (is_digit c) then none else read_digits t minus (c - b'0') str

abbrev pub has_minus : IntegralType → ℕ → Bool
has_minus t c = not t.is_unsigned && (c == b'-')

unfoldable pub str2num : IntegralType → Bytes → Option ℤ
unfolding read_first
str2num t [] = none
str2num t (c ∷ str) = if has_minus t c then read_first t true str else read_first t false (c ∷ str)

abbrev pub and_then : {A : Type 0} → Option ℤ → (ℤ → Option A) → Option A
and_then none f = none
and_then (some n) f = f n

abbrev pub to_bool : ℤ → Option Bool
to_bool (pos zero) = some false
to_bool (pos (suc zero)) = some true
to_bool _ = none

-- str2num<bool>
unfoldable pub str2num_bool : Bytes → Option Bool
unfolding str2num
str2num_bool str = and_then (str2num uint8 str) to_bool

abbrev pub is_less : Ordering → Bool
is_less Ordering.lt = true
is_less _ = false

-- With a range.
unfoldable pub str2num_between : IntegralType → Bytes → ℤ → ℤ → Option ℤ
unfolding str2num
str2num_between t str min_val max_val =
    and_then (str2num t str)
      (λ n. if is_less (compare_ℤ n min_val) || is_less (compare_ℤ max_val n) then none else some n)

-- What a text means, without any bound: decimal digits after other ones.
unfoldable pub all_digits : Bytes → Bool
all_digits [] = true
all_digits (c ∷ str) = let rest = all_digits str in is_digit c && rest

unfoldable pub value : ℕ → Bytes → ℕ
value res [] = res
value res (c ∷ str) = value (res * 10 + (c - b'0')) str

abbrev pub is_numeral : Bytes → Bool
is_numeral [] = false
is_numeral (c ∷ str) = all_digits (c ∷ str)

-- The number if it fits.
unfoldable pub fitting : IntegralType → Bool → Bytes → Option ℤ
unfolding all_digits value
fitting t minus digits =
    if is_numeral digits && leb (value 0 digits) (furthest t minus)
    then some (with_sign minus (value 0 digits))
    else none

unfoldable pub meaning : IntegralType → Bytes → Option ℤ
unfolding fitting
meaning t [] = none
meaning t (c ∷ str) = if has_minus t c then fitting t true str else fitting t false (c ∷ str)

-- Every digit has its value.
abbrev pub IsWide : IntegralType → Type 0
IsWide t = (9 ≤ t.max) × (t.is_unsigned ≡ false → 9 ≤ t.below_zero)

-- Further digits make no number smaller.
value_grows : (res : ℕ) (str : Bytes) → res ≤ value res str
unfolding value
value_grows res [] = omega arith
value_grows res (c ∷ str) = let h = value_grows (res * 10 + (c - b'0')) str in omega arith

-- The loop stops at an overflow, and then the whole number does not fit.
read_digits-value :
    (t : IntegralType) (minus : Bool) (res : ℕ) (str : Bytes)
    → res ≤ furthest t minus
    → read_digits t minus res str ≡ (
        if all_digits str && leb (value res str) (furthest t minus)
        then some (with_sign minus (value res str))
        else none)
unfolding read_digits all_digits value
read_digits-value t minus res [] h = ground arith
read_digits-value t minus res (c ∷ str) h = elim (Bool-cases (is_digit c)) [
  | inr n ↦ rw n refl
  | inl d ↦ elim (Bool-cases (ltb (furthest t minus) (res * 10 + (c - b'0')))) [
    | inl over ↦
        let g = value_grows (res * 10 + (c - b'0')) str in
        let too_great : leb (value (res * 10 + (c - b'0')) str) (furthest t minus) ≡ false =
          ground arith in
        rw (d, too_great, over) (ground arith)
    | inr fits ↦
        let small : ltb (furthest t minus) (res * 10) ≡ false = ground arith in
        rw (d, small, fits) (read_digits-value t minus (res * 10 + (c - b'0')) str (ground arith))
  ]
]

read_first-fitting :
    (t : IntegralType) (minus : Bool) (digits : Bytes)
    → 9 ≤ furthest t minus
    → read_first t minus digits ≡ fitting t minus digits
unfolding read_first fitting value all_digits
read_first-fitting t minus [] w = refl
read_first-fitting t minus (c ∷ str) w = elim (Bool-cases (is_digit c)) [
  | inr n ↦ rw n refl
  | inl d ↦
      let start : 0 * 10 + (c - b'0') ≡ c - b'0' = omega arith in
      rw (d, start) (read_digits-value t minus (c - b'0') str (ground arith))
]

neither : (a b : Bool) → a || b ≡ false → (a ≡ false) × (b ≡ false)
neither false b e = (refl, e)
neither true b e = cc

between :
    (found : Option ℤ) (min_val max_val n : ℤ)
    → (and_then found (λ m.
          if is_less (compare_ℤ m min_val) || is_less (compare_ℤ max_val m) then none else some m)
        ≡ some n)
      ↔ ((found ≡ some n)
          × (is_less (compare_ℤ n min_val) ≡ false)
          × (is_less (compare_ℤ max_val n) ≡ false))
between none min_val max_val n = ((λ e. cc), (λ (e, a, b). cc))
between (some m) min_val max_val n = (forth, back)
  where
    forth :
        (if is_less (compare_ℤ m min_val) || is_less (compare_ℤ max_val m) then none else some m)
          ≡ some n
        → (some m ≡ some n)
          × (is_less (compare_ℤ n min_val) ≡ false)
          × (is_less (compare_ℤ max_val n) ≡ false)
    forth e = elim (Bool-cases (is_less (compare_ℤ m min_val) || is_less (compare_ℤ max_val m))) [
      | inl t ↦ absurd (let e' = rw t at e in cc)
      | inr f ↦
          let e' : some m ≡ some n = rw f at e in
          let same : m ≡ n = cc in
          (e', rw (← same) (neither _ _ f).0, rw (← same) (neither _ _ f).1)
    ]

    back :
        (some m ≡ some n)
          × (is_less (compare_ℤ n min_val) ≡ false)
          × (is_less (compare_ℤ max_val n) ≡ false)
        → (if is_less (compare_ℤ m min_val) || is_less (compare_ℤ max_val m) then none else some m)
          ≡ some n
    back (e, a, b) = let same : m ≡ n = cc in rw (same, a, b) refl

plain : (t : IntegralType) (str : Bytes) → IsWide t → str2num t str ≡ meaning t str
unfolding str2num meaning
plain t [] w = refl
plain t (c ∷ str) w = elim (Bool-cases (has_minus t c)) [
  | inl m ↦ rw m (read_first-fitting t true str (w.1 (ground arith)))
  | inr n ↦ rw n (read_first-fitting t false (c ∷ str) w.0)
]

-- Let the numbers of the type go from -9, or from 0 if it is unsigned, to 9 at least. `str2num` gives
-- a number exactly if the text is one or more digits, after a minus perhaps if the type is signed, and
-- the number that they stand for, computed without any bound, fits; and then it gives that number.
-- With a range, it gives the number exactly if it is also in the range.
pub str2num-meaning :
    (t : IntegralType) (str : Bytes)
    → IsWide t
    → (str2num t str ≡ meaning t str)
      × ((min_val max_val n : ℤ)
          → (str2num_between t str min_val max_val ≡ some n) ↔ (
              (meaning t str ≡ some n)
              × (is_less (compare_ℤ n min_val) ≡ false)
              × (is_less (compare_ℤ max_val n) ≡ false)))
unfolding str2num_between
str2num-meaning t str w = (
  plain t str w,
  λ min_val max_val n. rw (← plain t str w) (between (str2num t str) min_val max_val n),
)
