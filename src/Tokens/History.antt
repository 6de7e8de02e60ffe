-- ===== src/Tokens/History.antt =====
-- `MergeCallHistory` of pkg/tokens/tokens.go: the counts of the calls, as sums.
use mcpchecker.Prelude.{
  ap, Option-cases, inl, inr, ℕ, ◌+◌, ◌%◌, ◌<◌, Option, none, some, List, [], ◌∷◌, ◌≡◌, arith,
  if◌then◌else◌, ◌==◌,
}
use mcpchecker.Prelude.Word.{add64, int64_mod}
use mcpchecker.Proxy.{TokenCount, CallHistory}
use mcpchecker.Tokens.{Estimate, accumulate, merge_call_history}

-- The counts of the records that have them, added up with no bound.
module _ {A : Type 0} (tokens_of : A → Option TokenCount) (count : TokenCount → ℕ) where
  abbrev pub sum_counts : List A → ℕ
  sum_counts [] = 0
  sum_counts (c ∷ cs) = elim (tokens_of c) [ none ↦ 0 | some t ↦ count t ] + sum_counts cs

  pub accumulate-sum :
      (n : ℕ) (cs : List A)
      → n < int64_mod
      → accumulate tokens_of count n cs ≡ (n + sum_counts cs) % int64_mod
  unfolding accumulate
  accumulate-sum n [] h = omega arith
  accumulate-sum n (c ∷ cs) h = elim (Option-cases (tokens_of c)) [
    | inl e ↦ rw (e, sum_counts) (rw (accumulate-sum n cs h) (omega arith))
    | inr (t, e) ↦
        rw (e, sum_counts) (rw (accumulate-sum (add64 n (count t)) cs (omega arith)) (omega arith))
  ]

module _ {A : Type 0} (tokens_of : A → Option TokenCount) (count : TokenCount → ℕ) where
  accumulate_zero :
      (cs : List A) → accumulate tokens_of count 0 cs ≡ sum_counts tokens_of count cs % int64_mod
  accumulate_zero cs = rw (accumulate-sum tokens_of count 0 cs (omega arith)) (omega arith)

-- The counts of an estimate before the merge are `int64`s.
pub record IsRanged (e : Estimate) : Type 0 where
  pub prompt_get_input : e.prompt_get_input_tokens < int64_mod
  pub prompt_get_output : e.prompt_get_output_tokens < int64_mod
  pub resource_input : e.resource_input_tokens < int64_mod
  pub resource_output : e.resource_output_tokens < int64_mod

-- Merging a history of calls: the tools' input and output are each kept if they are there already and
-- are otherwise the sums over the calls; the prompts' and resources' are always added; all of it up to
-- the wrap-round of 64 bits.
pub merge_call_history_sums :
    (e : Estimate) (h : CallHistory)
    → IsRanged e
    → let m = merge_call_history e (some h) in
      (m.tool_input_tokens ≡ (
        if e.tool_input_tokens == 0
        then sum_counts (λ c. c.tokens) (λ t. t.input_tokens) h.tool_calls % int64_mod
        else e.tool_input_tokens))
      × (m.tool_output_tokens ≡ (
          if e.tool_output_tokens == 0
          then sum_counts (λ c. c.tokens) (λ t. t.output_tokens) h.tool_calls % int64_mod
          else e.tool_output_tokens))
      × (m.prompt_get_input_tokens
          ≡ (e.prompt_get_input_tokens
              + sum_counts (λ c. c.tokens) (λ t. t.input_tokens) h.prompt_gets)
            % int64_mod)
      × (m.prompt_get_output_tokens
          ≡ (e.prompt_get_output_tokens
              + sum_counts (λ c. c.tokens) (λ t. t.output_tokens) h.prompt_gets)
            % int64_mod)
      × (m.resource_input_tokens
          ≡ (e.resource_input_tokens
              + sum_counts (λ c. c.tokens) (λ t. t.input_tokens) h.resource_reads)
            % int64_mod)
      × (m.resource_output_tokens
          ≡ (e.resource_output_tokens
              + sum_counts (λ c. c.tokens) (λ t. t.output_tokens) h.resource_reads)
            % int64_mod)
unfolding merge_call_history
merge_call_history_sums e h r = (
  ap (λ n. if e.tool_input_tokens == 0 then n else e.tool_input_tokens)
      (accumulate_zero _ _ h.tool_calls),
  ap (λ n. if e.tool_output_tokens == 0 then n else e.tool_output_tokens)
      (accumulate_zero _ _ h.tool_calls),
  accumulate-sum _ _ _ h.prompt_gets r.prompt_get_input,
  accumulate-sum _ _ _ h.prompt_gets r.prompt_get_output,
  accumulate-sum _ _ _ h.resource_reads r.resource_input,
  accumulate-sum _ _ _ h.resource_reads r.resource_output,
)
