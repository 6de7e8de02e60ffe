-- ===== src/Prelude/Int.antt =====
-- Go's `int` where a program may meet a negative one: an integer, compared and printed.
use Prim.Native.Nat.{ℕ, suc, ◌+◌}
use Prim.Native.String.{String}
use mathlib.Core.Bool.{Bool}
use mathlib.Core.List.{[], ◌∷◌}
use mcpchecker.Prelude.Tests.{ltb}
use mcpchecker.Prelude.Text.{show_ℕ, concat}

-- `negsuc n` is -(n + 1).
pub data ℤ : Type 0 where
  pos : ℕ → ℤ
  negsuc : ℕ → ℤ

-- The rounds of `for i := 0; i < n; i++`.
abbrev pub pos_part : ℤ → ℕ
pos_part (pos n) = n
pos_part (negsuc n) = 0

abbrev pub neg_part : ℤ → ℕ
neg_part (pos n) = 0
neg_part (negsuc n) = suc n

abbrev pub ltb_ℤ : ℤ → ℤ → Bool
ltb_ℤ a b = ltb (pos_part a + neg_part b) (pos_part b + neg_part a)

-- `%d`
unfoldable pub show_ℤ : ℤ → String
unfolding show_ℕ concat
show_ℤ (pos n) = show_ℕ n
show_ℤ (negsuc n) = concat ("-" ∷ show_ℕ (suc n) ∷ [])
