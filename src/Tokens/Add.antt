-- ===== src/Tokens/Add.antt =====
-- `Add` of pkg/tokens/tokens.go.
use mcpchecker.Prelude.{ap, ℕ, Option, none, some, ◌≡◌, refl}
use mcpchecker.Prelude.Word.{add64_comm, add64_assoc}
use mcpchecker.Tokens.{Usage, add_optional, add}

optional_comm : (u v : Option ℕ) → add_optional u v ≡ add_optional v u
unfolding add_optional
optional_comm none none = refl
optional_comm none (some v) = refl
optional_comm (some u) none = refl
optional_comm (some u) (some v) = ap some (add64_comm u v)

optional_assoc :
    (u v w : Option ℕ) → add_optional (add_optional u v) w ≡ add_optional u (add_optional v w)
unfolding add_optional
optional_assoc none none none = refl
optional_assoc none none (some w) = refl
optional_assoc none (some v) none = refl
optional_assoc none (some v) (some w) = refl
optional_assoc (some u) none none = refl
optional_assoc (some u) none (some w) = refl
optional_assoc (some u) (some v) none = refl
optional_assoc (some u) (some v) (some w) = ap some (add64_assoc u v w)

-- Usages add up in any order and grouping, with or without the optional counts, and over the end of
-- the 64 bits.
pub add_laws :
    (u v w : Usage)
    → (add u (some v) ≡ add v (some u))
      × (add (add u (some v)) (some w) ≡ add u (some (add v (some w))))
unfolding add
add_laws u v w = (
  cc (
    add64_comm u.input_tokens v.input_tokens,
    add64_comm u.output_tokens v.output_tokens,
    add64_comm u.total_tokens v.total_tokens,
    optional_comm u.thought_tokens v.thought_tokens,
    optional_comm u.cached_read_tokens v.cached_read_tokens,
    optional_comm u.cached_write_tokens v.cached_write_tokens,
  ),
  cc (
    add64_assoc u.input_tokens v.input_tokens w.input_tokens,
    add64_assoc u.output_tokens v.output_tokens w.output_tokens,
    add64_assoc u.total_tokens v.total_tokens w.total_tokens,
    optional_assoc u.thought_tokens v.thought_tokens w.thought_tokens,
    optional_assoc u.cached_read_tokens v.cached_read_tokens w.cached_read_tokens,
    optional_assoc u.cached_write_tokens v.cached_write_tokens w.cached_write_tokens,
  ),
)
