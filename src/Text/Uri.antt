-- ===== src/Text/Uri.antt =====
-- `encode_uri` and `decode_uri` of string_transform.hh. The shift by 4 and the mask by 15 are a division
-- and a remainder by 16, and `|` of two nibbles is a sum.
use sim_project.Common.{
  ℕ, ◌≡◌, ◌<◌, refl, ap, ◌∙◌, ◌+◌, ◌*◌, ◌/◌, ◌%◌, Bool, true, ◌&&◌, ◌||◌, ◌==◌, if◌then◌else◌,
  Bool-cases, inl, inr, [], ◌∷◌, All, Bytes, arith,
}
use sim_project.Text.{is_alpha, is_digit, is_xdigit, hex2dec, dec2_hex_upper}

-- The table `is_safe`: letters, digits and -_.~
unfoldable pub is_safe : ℕ → Bool
is_safe c =
    is_alpha c || (is_digit c || ((c == b'-') || ((c == b'_') || ((c == b'.') || (c == b'~')))))

-- %XY
unfoldable pub encode_uri : Bytes → Bytes
unfolding is_safe dec2_hex_upper
encode_uri [] = []
encode_uri (c ∷ str) =
    let rest = encode_uri str in
    if is_safe c then c ∷ rest else b'%' ∷ dec2_hex_upper (c / 16) ∷ dec2_hex_upper (c % 16) ∷ rest

abbrev pub decode_plain : ℕ → ℕ
decode_plain c = if c == b'+' then b' ' else c

unfoldable pub is_escape : ℕ → ℕ → ℕ → Bool
is_escape c high low = (c == b'%') && (is_xdigit high && is_xdigit low)

unfoldable pub decode_uri : Bytes → Bytes
unfolding hex2dec is_escape
decode_uri [] = []
decode_uri (c ∷ []) = decode_plain c ∷ []
decode_uri (c ∷ d ∷ []) = decode_plain c ∷ decode_uri (d ∷ [])
decode_uri (c ∷ high ∷ low ∷ str) =
    let rest = decode_uri str in
    let next = decode_uri (high ∷ low ∷ str) in
    if is_escape c high low
    then (16 * hex2dec high + hex2dec low) % 256 ∷ rest
    else decode_plain c ∷ next

hex2dec-dec2_hex_upper : (x : ℕ) → x < 16 → hex2dec (dec2_hex_upper x) ≡ x
unfolding hex2dec dec2_hex_upper
hex2dec-dec2_hex_upper x h = ground arith

digit_is_xdigit : (x : ℕ) → x < 16 → is_xdigit (dec2_hex_upper x) ≡ true
unfolding dec2_hex_upper
digit_is_xdigit x h = ground arith

-- A safe byte is neither % nor +, and stands for itself.
decode-safe : (c : ℕ) (str : Bytes) → is_safe c ≡ true → decode_uri (c ∷ str) ≡ c ∷ decode_uri str
unfolding decode_uri is_safe is_escape
decode-safe c [] s = ground arith
decode-safe c (d ∷ []) s = ground arith
decode-safe c (d ∷ e ∷ str) s = ground arith

decode-escape :
    (high low : ℕ) (str : Bytes)
    → is_xdigit high ≡ true
    → is_xdigit low ≡ true
    → decode_uri (b'%' ∷ high ∷ low ∷ str)
      ≡ (16 * hex2dec high + hex2dec low) % 256 ∷ decode_uri str
unfolding decode_uri is_escape
decode-escape high low str h l = rw (h, l) refl

-- An escaped byte is read back.
decode-escaped :
    (c : ℕ) (str : Bytes)
    → c < 256
    → decode_uri (b'%' ∷ dec2_hex_upper (c / 16) ∷ dec2_hex_upper (c % 16) ∷ str)
      ≡ c ∷ decode_uri str
decode-escaped c str h =
    let a : c / 16 < 16 = omega arith in
    let b : c % 16 < 16 = omega arith in
    decode-escape (dec2_hex_upper (c / 16)) (dec2_hex_upper (c % 16)) str
      (digit_is_xdigit (c / 16) a) (digit_is_xdigit (c % 16) b)
    ∙ rw (hex2dec-dec2_hex_upper (c / 16) a, hex2dec-dec2_hex_upper (c % 16) b)
        (let e : (16 * (c / 16) + c % 16) % 256 ≡ c = omega arith in
          ap (λ (n : ℕ). n ∷ decode_uri str) e)

decode-empty : decode_uri [] ≡ []
unfolding decode_uri
decode-empty = refl

percent-safe : is_safe b'%' || (b'%' == b'%') ≡ true
unfolding is_safe
percent-safe = refl

digit-safe : (x : ℕ) → x < 16 → is_safe (dec2_hex_upper x) || (dec2_hex_upper x == b'%') ≡ true
unfolding is_safe dec2_hex_upper
digit-safe x h = ground arith

digits-safe :
    (c : ℕ)
    → c < 256
    → (is_safe (dec2_hex_upper (c / 16)) || (dec2_hex_upper (c / 16) == b'%') ≡ true)
      × (is_safe (dec2_hex_upper (c % 16)) || (dec2_hex_upper (c % 16) == b'%') ≡ true)
digits-safe c h = (digit-safe (c / 16) (omega arith), digit-safe (c % 16) (omega arith))

-- Let a text consist of bytes. What `encode_uri` makes of it has no other bytes than letters, digits,
-- -_.~ and %, and `decode_uri` gives the text again.
pub decode_uri-encode_uri :
    (str : Bytes)
    → All (λ c. c < 256) str
    → (decode_uri (encode_uri str) ≡ str)
      × All (λ c. is_safe c || (c == b'%') ≡ true) (encode_uri str)
unfolding encode_uri
decode_uri-encode_uri [] h = (decode-empty, tt)
decode_uri-encode_uri (c ∷ str) (a, h) =
    let (e, safe) = decode_uri-encode_uri str h in
    elim (Bool-cases (is_safe c)) [
      | inl t ↦
          rw t (decode-safe c (encode_uri str) t ∙ ap (λ (l : Bytes). c ∷ l) e, (rw t refl, safe))
      | inr n ↦
          let (x, y) = digits-safe c a in
          rw n (
            decode-escaped c (encode_uri str) a ∙ ap (λ (l : Bytes). c ∷ l) e,
            (percent-safe, (x, (y, safe))),
          )
    ]
