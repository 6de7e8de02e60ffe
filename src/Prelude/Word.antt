-- ===== src/Prelude/Word.antt =====
-- Go's `int64`, as the number that its 64 bits write in base two. Sums wrap round.
use Prim.Native.Nat.{ℕ, ◌+◌, ◌%◌, ◌^◌, ◌<◌}
use mathlib.Core.Bool.{Bool, ◌&&◌}
use mathlib.Core.Path.{◌≡◌}
use native.Mathlib.Omega.{arith}
use mcpchecker.Prelude.Tests.{ltb}

abbrev pub int64_mod : ℕ
int64_mod = 2 ^ 64

abbrev pub add64 : ℕ → ℕ → ℕ
add64 a b = (a + b) % 2 ^ 64

-- `a > 0` of the signed number.
abbrev pub is_positive : ℕ → Bool
is_positive a = ltb 0 a && ltb a (2 ^ 63)

pub add64_comm : (a b : ℕ) → add64 a b ≡ add64 b a
add64_comm a b = omega arith

pub add64_assoc : (a b c : ℕ) → add64 (add64 a b) c ≡ add64 a (add64 b c)
add64_assoc a b c = omega arith

pub add64-lt : (a b : ℕ) → add64 a b < int64_mod
add64-lt a b = omega arith
