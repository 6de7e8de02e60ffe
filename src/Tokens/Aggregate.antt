-- ===== src/Tokens/Aggregate.antt =====
-- `RecalculateAggregates` of pkg/tokens/tokens.go.
use mcpchecker.Prelude.Word.{add64, int64_mod}
use mcpchecker.Proxy.{CallHistory}
use mcpchecker.Tokens.Turns.{closed_form, costs, resent, total_of, written}
use mcpchecker.Prelude.{
  ℕ, Bool-cases, List, Option, [], arith, eq_iff, false, inl, inr, length, refl, str_eq, sym, ◌%◌,
  ◌*◌, ◌+◌, ◌∷◌, ◌≡◌, ◌≢◌,
}
use mathlib.Core.Path.{subst}
use mcpchecker.Tokens.{
  recalculate_aggregates, Estimate, TurnTokens, calls_of, source_actual, by_turns,
}

module _ (e : Estimate) (history : Option CallHistory) (estimated : e.source ≢ source_actual) where
  by_turns_lem : recalculate_aggregates e history ≡ by_turns e e.turns (calls_of history)
  unfolding recalculate_aggregates
  by_turns_lem =
      let no_match : str_eq e.source source_actual ≡ false =
        ground (arith, eq_iff e.source source_actual) in
      rw no_match

  -- Unless the counts are the agent's own, the total is the sum of input and output on every branch.
  pub total_is_sum :
      (recalculate_aggregates e history).total_tokens
      ≡ add64
          (recalculate_aggregates e history).input_tokens
          (recalculate_aggregates e history).output_tokens
  total_is_sum = rw by_turns_lem (total_of e e.turns (calls_of history))

  -- Unless the counts are the agent's own, and with turns: the input is the schema and the prompt once
  -- for each turn, and what each turn wrote and was answered once more for each later turn; the output
  -- is what the turns wrote; both up to the wrap-round of 64 bits.
  pub recalculate_turns :
      e.turns ≢ []
      → ((recalculate_aggregates e history).input_tokens
          ≡ (length e.turns * (e.mcp_schema_tokens + e.prompt_tokens)
              + resent (costs e.turns (calls_of history)))
            % int64_mod)
        × ((recalculate_aggregates e history).output_tokens
            ≡ written (costs e.turns (calls_of history)) % int64_mod)
  recalculate_turns some_turn = rw by_turns_lem (closed_form e e.turns (calls_of history) some_turn)

twice_with :
    (e : Estimate) (history : Option CallHistory) (ts : List TurnTokens)
    → let e' = record e { turns = ts } in
      recalculate_aggregates (recalculate_aggregates e' history) history
      ≡ recalculate_aggregates e' history
unfolding recalculate_aggregates
twice_with e history [] = elim (Bool-cases (str_eq e.source source_actual)) [
  | inl h ↦ rw h (rw h)
  | inr h ↦ rw h (rw h)
]
twice_with e history (t ∷ ts) = elim (Bool-cases (str_eq e.source source_actual)) [
  | inl h ↦ rw h (rw h)
  | inr h ↦ rw h (rw h)
]

-- Recalculating from the same history once more changes nothing.
pub recalculate_twice :
    (e : Estimate) (history : Option CallHistory)
    → recalculate_aggregates (recalculate_aggregates e history) history
      ≡ recalculate_aggregates e history
recalculate_twice e history = twice_with e history e.turns

-- The three sums of an estimate.
abbrev pub sums : Estimate → ℕ × ℕ × ℕ
sums e = (e.input_tokens, e.output_tokens, e.total_tokens)

-- The estimate with other counts of what resources and prompt gets were asked with and returned.
abbrev pub with_reads : Estimate → ℕ → ℕ → ℕ → ℕ → Estimate
with_reads e a b c d = record e {
  resource_input_tokens = a;
  resource_output_tokens = b;
  prompt_get_input_tokens = c;
  prompt_get_output_tokens = d;
}

ignored_with :
    (e : Estimate) (history : Option CallHistory) (a b c d : ℕ) (t : TurnTokens)
    (ts : List TurnTokens)
    → let e' = record e { turns = t ∷ ts } in
      sums (recalculate_aggregates (with_reads e' a b c d) history)
      ≡ sums (recalculate_aggregates e' history)
unfolding recalculate_aggregates
ignored_with e history a b c d t ts = elim (Bool-cases (str_eq e.source source_actual)) [
  | inl h ↦ rw h
  | inr h ↦ rw h
]

-- Where there is a turn, what resource reads and prompt gets were asked with and returned is in none
-- of the three sums.
pub turns_ignore_reads :
    (e : Estimate) (history : Option CallHistory) (a b c d : ℕ)
    → e.turns ≢ []
    → sums (recalculate_aggregates (with_reads e a b c d) history)
      ≡ sums (recalculate_aggregates e history)
turns_ignore_reads e history a b c d n = go e.turns refl
  where
    go :
        (ts : List TurnTokens)
        → e.turns ≡ ts
        → sums (recalculate_aggregates (with_reads e a b c d) history)
          ≡ sums (recalculate_aggregates e history)
    go [] h = absurd (n h)
    go (t ∷ ts) h =
        subst
          (λ us.
            sums (recalculate_aggregates (with_reads (record e { turns = us }) a b c d) history)
            ≡ sums (recalculate_aggregates (record e { turns = us }) history))
          (sym h) (ignored_with e history a b c d t ts)
