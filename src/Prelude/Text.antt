-- ===== src/Prelude/Text.antt =====
-- The part of package fmt that the program's messages use: `%s`, `%d` of a number and `%v` of bytes.
use Prim.Native.Nat.{ℕ, zero, suc, ◌+◌, ◌/◌, ◌%◌}
use Prim.Native.String.{String, ◌++◌, slice}
use mathlib.Core.List.{List, [], ◌∷◌}
use mathlib.Core.Path.{◌≡◌, refl}
use mcpchecker.Prelude.Tests.{◌==◌, if◌then◌else◌}

-- One decimal digit.
digit : ℕ → String
digit d = slice "0123456789" d (d + 1)

-- The digits of `n` before `out`; a number has at most as many digits as the fuel, `n + 1`.
digits : ℕ → ℕ → String → String
digits zero n out = out
digits (suc fuel) n out =
    let rest = digits fuel (n / 10) (digit (n % 10) ++ out) in
    if n / 10 == 0 then digit (n % 10) ++ out else rest

-- `%d`
unfoldable pub show_ℕ : ℕ → String
unfolding digits digit
show_ℕ n = digits (n + 1) n ""

-- A message is the concatenation of its parts.
unfoldable pub concat : List String → String
concat [] = ""
concat (s ∷ ss) = s ++ concat ss

show_rest : List ℕ → String
show_rest [] = "]"
show_rest (b ∷ bs) = " " ++ show_ℕ b ++ show_rest bs

-- `%v` of a byte slice: `[1 2 3]`
unfoldable pub show_bytes : List ℕ → String
unfolding show_rest show_ℕ
show_bytes [] = "[]"
show_bytes (b ∷ bs) = "[" ++ show_ℕ b ++ show_rest bs

show_ℕ_runs : show_ℕ 1070 ≡ "1070"
unfolding show_ℕ
show_ℕ_runs = refl

show_bytes_runs : show_bytes (12 ∷ 0 ∷ 5 ∷ []) ≡ "[12 0 5]"
unfolding show_bytes
show_bytes_runs = refl
