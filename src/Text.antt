-- ===== src/Text.antt =====
-- Texts as lists of bytes, below 256: subprojects/simlib/include/simlib, ctype.hh and
-- string_transform.hh. A `char` above 127 is negative in the source; no comparison below depends on it.
pub mod Uri
pub mod Number
use sim_project.Common.{ℕ, ◌+◌, ◌-◌, Bool, ◌&&◌, ◌||◌, ltb, leb, if◌then◌else◌}

abbrev pub is_between : ℕ → ℕ → ℕ → Bool
is_between low c high = leb low c && leb c high

abbrev pub is_digit : ℕ → Bool
is_digit c = is_between b'0' c b'9'

abbrev pub is_alpha : ℕ → Bool
is_alpha c = is_between b'A' c b'Z' || is_between b'a' c b'z'

abbrev pub is_xdigit : ℕ → Bool
is_xdigit c = is_digit c || (is_between b'A' c b'F' || is_between b'a' c b'f')

-- Of a hexadecimal digit.
unfoldable pub hex2dec : ℕ → ℕ
hex2dec c = if ltb c b'A' then c - b'0' else 10 + c - (if leb b'a' c then b'a' else b'A')

-- Of a number below 16, with lower case and upper case letters.
unfoldable pub dec2hex : ℕ → ℕ
dec2hex x = if ltb 9 x then b'a' - 10 + x else x + b'0'

unfoldable pub dec2_hex_upper : ℕ → ℕ
dec2_hex_upper x = if ltb 9 x then b'A' - 10 + x else x + b'0'
