-- ===== src/Common/Text.antt =====
-- Byte strings and their order: `std::string` compares byte by byte, and a prefix comes first.
use Prim.Native.Nat.{ℕ}
use Prim.Native.Char.{code}
use Prim.Native.String.{String}
use mathlib.Core.Path.{◌≡◌, refl}
use native.Mathlib.Omega.{arith}
use mathlib.Core.Bool.{Bool, true, false, not}
use mathlib.Core.List.{List, [], ◌∷◌}
use sim_project.Common.Tests.{ltb, if◌then◌else◌, ◌==◌}

abbrev pub Bytes : Type 0
Bytes = List ℕ

-- The bytes of an ASCII text.
abbrev pub bytes : String → Bytes
bytes String.[] = []
bytes (String.◌∷◌ c s) = code c ∷ bytes s

-- `a < b`.
unfoldable pub less : Bytes → Bytes → Bool
less a [] = false
less [] (y ∷ b) = true
less (x ∷ a) (y ∷ b) = let rest = less a b in if x == y then rest else ltb x y

-- `a >= b`.
abbrev pub at_least : Bytes → Bytes → Bool
at_least a b = not (less a b)

-- The order is transitive: with `less` false the other way round, it is a preorder.
pub at_least_trans :
    (a b c : Bytes) → at_least a b ≡ true → at_least b c ≡ true → at_least a c ≡ true
unfolding less
at_least_trans a b [] h k = refl
at_least_trans a [] (z ∷ c) h k = cc
at_least_trans [] (y ∷ b) (z ∷ c) h k = cc
at_least_trans (x ∷ a) (y ∷ b) (z ∷ c) h k = ground (arith, at_least_trans a b c)

-- `a == b`.
unfoldable pub same_bytes : Bytes → Bytes → Bool
same_bytes [] [] = true
same_bytes [] (y ∷ b) = false
same_bytes (x ∷ a) [] = false
same_bytes (x ∷ a) (y ∷ b) = let rest = same_bytes a b in if x == y then rest else false
