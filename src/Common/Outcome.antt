-- ===== src/Common/Outcome.antt =====
-- Code that may throw: a value, or the exception. A transaction whose code throws is rolled back.
use mathlib.Core.Option.{Option, none, some}
use mathlib.Core.Path.{◌≡◌, refl}

pub data Exception : Type 0 where
  assertion_failed deadlock bad_optional_access not_implemented sql_error : Exception

pub data Result {ℓ} (Value : Type ℓ) : Type ℓ where
  threw : Exception → Result Value
  ok : Value → Result Value

-- Code goes on with the next statement unless one threw.
module _ {ℓ κ} {Value : Type ℓ} {Next : Type κ} where
  infixl 5 ◌>>=◌
  abbrev pub ◌>>=◌ : Result Value → (Value → Result Next) → Result Next
  threw exception >>= next = threw exception
  ok value >>= next = next value

  -- The parts of a block that ended with a value.
  pub >>=-eq-ok :
      (first : Result Value) (next : Value → Result Next) {result : Next}
      → (first >>= next) ≡ ok result
      → (value : Value) × (first ≡ ok value) × (next value ≡ ok result)
  >>=-eq-ok (threw exception) next ended = cc
  >>=-eq-ok (ok value) next ended = (value, refl, ended)

-- `throw_assert(stmt.next())`: the row that a query gave, which has to be there.
abbrev pub require {ℓ} : {Row : Type ℓ} → Option Row → Result Row
require none = threw assertion_failed
require (some row) = ok row

-- `std::optional::value()`.
abbrev pub value {ℓ} : {Value : Type ℓ} → Option Value → Result Value
value none = threw bad_optional_access
value (some held) = ok held
