-- ===== src/Tokens/Turns.antt =====
-- The loop over the turns of `RecalculateAggregates` of pkg/tokens/tokens.go against a closed form: every
-- turn sends the model all that came before it.
use mcpchecker.Tokens.History.{sum_counts}
use mcpchecker.Prelude.Word.{add64, int64_mod}
use mcpchecker.Tokens.{by_turns, turn_loop, turns_loop, Estimate, TurnTokens}
use mcpchecker.Proxy.{ToolCall}
use mcpchecker.Prelude.{
  ℕ, List, Option-cases, [], ap, arith, inl, inr, length, refl, suc, zero, ◌%◌, ◌*◌, ◌+◌, ◌/◌, ◌<◌,
  ◌∙◌, ◌∷◌, ◌≡◌, ◌≢◌,
}
use mcpchecker.Prelude.Int.{pos_part}

abbrev pub take {ℓ} : {A : Type ℓ} → ℕ → List A → List A
take zero xs = []
take (suc n) [] = []
take (suc n) (x ∷ xs) = x ∷ take n xs

abbrev pub drop {ℓ} : {A : Type ℓ} → ℕ → List A → List A
drop zero xs = xs
drop (suc n) [] = []
drop (suc n) (x ∷ xs) = drop n xs

abbrev inputs : List ToolCall → ℕ
inputs = sum_counts (λ c. c.tokens) (λ t. t.input_tokens)

abbrev outputs : List ToolCall → ℕ
outputs = sum_counts (λ c. c.tokens) (λ t. t.output_tokens)

-- What the model writes in each turn, and what the tools answer it: the calls are dealt out to the
-- turns in order. Sums have no bound here.
abbrev pub costs : List TurnTokens → List ToolCall → List (ℕ × ℕ)
costs [] calls = []
costs (t ∷ ts) calls =
    let n = pos_part t.num_tool_calls in
    (t.output_tokens + inputs (take n calls), outputs (take n calls)) ∷ costs ts (drop n calls)

abbrev pub written : List (ℕ × ℕ) → ℕ
written [] = 0
written ((out, res) ∷ cs) = out + written cs

-- Each turn's content is sent once more in every later turn.
abbrev pub resent : List (ℕ × ℕ) → ℕ
resent [] = 0
resent ((out, res) ∷ cs) = (out + res) * length cs + resent cs

turn_loop_lem :
    (n : ℕ) (calls : List ToolCall) (out res : ℕ)
    → ((turn_loop n calls out res).0 % int64_mod ≡ (out + inputs (take n calls)) % int64_mod)
      × ((turn_loop n calls out res).1 % int64_mod ≡ (res + outputs (take n calls)) % int64_mod)
      × ((turn_loop n calls out res).2 ≡ drop n calls)
unfolding turn_loop
turn_loop_lem zero calls out res = (omega arith, omega arith, refl)
turn_loop_lem (suc n) [] out res = (omega arith, omega arith, refl)
turn_loop_lem (suc n) (c ∷ calls) out res = elim (Option-cases c.tokens) [
  | inl e ↦
      let (x, y, z) = turn_loop_lem n calls out res in rw e (omega (arith, x), omega (arith, y), z)
  | inr (t, e) ↦
      let (x, y, z) =
        turn_loop_lem n calls (add64 out t.input_tokens) (add64 res t.output_tokens) in
      rw e (omega (arith, x), omega (arith, y), z)
]

length-costs : (ts : List TurnTokens) (calls : List ToolCall) → length (costs ts calls) ≡ length ts
length-costs [] calls = refl
length-costs (t ∷ ts) calls = ap suc (length-costs ts (drop (pos_part t.num_tool_calls) calls))

-- One turn: the context that the `l` later turns send grows by what the turn wrote and was answered.
one_turn :
    (l context out res out' res' cum w : ℕ)
    → out % int64_mod ≡ out' % int64_mod
    → res % int64_mod ≡ res' % int64_mod
    → (add64 cum context + l * add64 context (add64 out res) + w) % int64_mod
      ≡ (cum + suc l * context + ((out' + res') * l + w)) % int64_mod
one_turn l context out res out' res' cum w p q =
    let x : ℕ = context + (out' + res') in
    let grown : add64 context (add64 out res) ≡ x % int64_mod = omega arith in
    let split : int64_mod * (x / int64_mod) + x % int64_mod ≡ x = omega arith in
    rw grown (omega (arith, ap (λ (t : ℕ). l * t) split))

-- The loop over the turns, from any context and sums.
turns_loop_lem :
    (ts : List TurnTokens) (calls : List ToolCall) (context cum_input cum_output : ℕ)
    → ((turns_loop ts calls context cum_input cum_output).0 % int64_mod
        ≡ (cum_input + length ts * context + resent (costs ts calls)) % int64_mod)
      × ((turns_loop ts calls context cum_input cum_output).1 % int64_mod
          ≡ (cum_output + written (costs ts calls)) % int64_mod)
unfolding turns_loop
turns_loop_lem [] calls context cum_input cum_output = (omega arith, omega arith)
turns_loop_lem (t ∷ ts) calls context cum_input cum_output =
    let n = pos_part t.num_tool_calls in
    let (p, q, dropped) = turn_loop_lem n calls t.output_tokens 0 in
    let (out, res, rest) = turn_loop n calls t.output_tokens 0 in
    let cs = costs ts (drop n calls) in
    let (x, y) =
      turns_loop_lem ts rest (add64 context (add64 out res)) (add64 cum_input context)
        (add64 cum_output out) in
    let rests =
      ap
        (λ r.
          (add64 cum_input context
            + length ts * add64 context (add64 out res)
            + resent (costs ts r))
          % int64_mod)
        dropped in
    let writes = ap (λ r. (add64 cum_output out + written (costs ts r)) % int64_mod) dropped in
    (
      rw (length-costs ts (drop n calls)) (
          x
          ∙ rests
          ∙ one_turn (length ts) context out res (t.output_tokens + inputs (take n calls))
              (outputs (take n calls)) cum_input (resent cs) p (omega (arith, q))),
      omega (arith, y, writes, p),
    )

-- The sums of the loop are `int64`s.
turns_loop-lt :
    (ts : List TurnTokens) (calls : List ToolCall) (context cum_input cum_output : ℕ)
    → cum_input < int64_mod
    → cum_output < int64_mod
    → ((turns_loop ts calls context cum_input cum_output).0 < int64_mod)
      × ((turns_loop ts calls context cum_input cum_output).1 < int64_mod)
unfolding turns_loop
turns_loop-lt [] calls context cum_input cum_output h k = (h, k)
turns_loop-lt (t ∷ ts) calls context cum_input cum_output h k =
    turns_loop-lt ts _ _ _ _ (omega arith) (omega arith)

pub total_of :
    (e : Estimate) (ts : List TurnTokens) (calls : List ToolCall)
    → (by_turns e ts calls).total_tokens
      ≡ add64 (by_turns e ts calls).input_tokens (by_turns e ts calls).output_tokens
unfolding by_turns
total_of e [] calls = refl
total_of e (t ∷ ts) calls = refl

-- A small number is its own remainder.
small :
    (a b c : ℕ)
    → a < int64_mod
    → a % int64_mod ≡ b % int64_mod
    → b % int64_mod ≡ c % int64_mod
    → a ≡ c % int64_mod
small a b c h p q = omega arith

pub closed_form :
    (e : Estimate) (ts : List TurnTokens) (calls : List ToolCall)
    → ts ≢ []
    → ((by_turns e ts calls).input_tokens
        ≡ (length ts * (e.mcp_schema_tokens + e.prompt_tokens) + resent (costs ts calls))
          % int64_mod)
      × ((by_turns e ts calls).output_tokens ≡ written (costs ts calls) % int64_mod)
unfolding by_turns
closed_form e [] calls n = absurd (n refl)
closed_form e (t ∷ ts) calls n =
    let start = add64 e.mcp_schema_tokens e.prompt_tokens in
    let (x, y) = turns_loop_lem (t ∷ ts) calls start 0 0 in
    let (f, g) = turns_loop-lt (t ∷ ts) calls start 0 0 (omega arith) (omega arith) in
    let s : ℕ = e.mcp_schema_tokens + e.prompt_tokens in
    let split : int64_mod * (s / int64_mod) + s % int64_mod ≡ s = omega arith in
    let scaled = ap (λ (k : ℕ). length (t ∷ ts) * k) split in
    (small _ _ _ f x (omega (arith, scaled)), small _ _ _ g y (omega arith))
