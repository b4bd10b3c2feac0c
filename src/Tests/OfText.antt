-- ===== src/Tests/OfText.antt =====
-- Examples for `Text`.
use sim_project.Common.{
  ◌≡◌, ◌↔◌, ◌||◌, ◌==◌, ◌^◌, ◌-◌, true, false, refl, some, none, All, Bytes, bytes, ℤ, negsuc,
  compare_ℤ, arith,
}
use sim_project.Text.Uri.{encode_uri, decode_uri, is_safe, decode_uri-encode_uri}
use sim_project.Text.Number.{
  IntegralType, str2num, str2num_between, str2num_bool, meaning, is_less, str2num-meaning,
}

-- With a space, a percent sign and a plus.
abbrev query : Bytes
query = bytes "50% of a+b"

encoded_test : encode_uri query ≡ bytes "50%25%20of%20a%2Bb"
unfolding encode_uri
encoded_test = refl

decode_uri-encode_uri_example :
    (decode_uri (encode_uri query) ≡ query)
    × All (λ c. is_safe c || (c == b'%') ≡ true) (encode_uri query)
decode_uri-encode_uri_example = decode_uri-encode_uri query (
  omega arith,
  (
    omega arith,
    (
      omega arith,
      (
        omega arith,
        (
          omega arith,
          (omega arith, (omega arith, (omega arith, (omega arith, (omega arith, tt))))),
        ),
      ),
    ),
  ),
)

abbrev int8 : IntegralType
int8 = record { is_unsigned = false; max = 2 ^ 7 - 1; below_zero = 2 ^ 7 }

least_test : str2num int8 (bytes "-128") ≡ some (negsuc 127)
unfolding str2num
least_test = refl

overflow_test : str2num int8 (bytes "128") ≡ none
unfolding str2num
overflow_test = refl

bool_test : str2num_bool (bytes "2") ≡ none
unfolding str2num_bool
bool_test = refl

str2num-meaning_example :
    (str2num int8 (bytes "-128") ≡ meaning int8 (bytes "-128"))
    × ((min_val max_val n : ℤ)
        → (str2num_between int8 (bytes "-128") min_val max_val ≡ some n) ↔ (
            (meaning int8 (bytes "-128") ≡ some n)
            × (is_less (compare_ℤ n min_val) ≡ false)
            × (is_less (compare_ℤ max_val n) ≡ false)))
str2num-meaning_example = str2num-meaning int8 (bytes "-128") (omega arith, λ e. omega arith)
