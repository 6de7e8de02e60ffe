-- ===== src/Tokens.antt =====
-- pkg/tokens/tokens.go: token counts of a run. Every count is an `int64`, the number that its bits
-- write; sums wrap round, so that a negative count is a large number here.
pub mod Add
pub mod History
pub mod Turns
pub mod Aggregate
pub mod Compute
pub mod Calls
mod Tests
use mcpchecker.Prelude.{
  ℕ, zero, suc, String, str_eq, Option, none, some, List, [], ◌∷◌, if◌then◌else◌, ◌==◌,
}
use mcpchecker.Prelude.Int.{ℤ, pos_part}
use mcpchecker.Prelude.Word.{add64}
use mcpchecker.Proxy.{TokenCount, ToolCall, ResourceRead, PromptGet, CallHistory}

pub record Usage : Type 0 where
  pub input_tokens : ℕ
  pub output_tokens : ℕ
  pub total_tokens : ℕ
  pub thought_tokens : Option ℕ
  pub cached_read_tokens : Option ℕ
  pub cached_write_tokens : Option ℕ

-- One call of the model: its output without tool calls, and how many tools it called.
pub record TurnTokens : Type 0 where
  pub output_tokens : ℕ
  pub num_tool_calls : ℤ

pub record Estimate : Type 0 where
  pub input_tokens : ℕ
  pub output_tokens : ℕ
  pub total_tokens : ℕ
  pub prompt_tokens : ℕ
  pub message_tokens : ℕ
  pub thinking_tokens : ℕ
  pub tool_input_tokens : ℕ
  pub tool_output_tokens : ℕ
  pub mcp_schema_tokens : ℕ
  pub prompt_get_input_tokens : ℕ
  pub prompt_get_output_tokens : ℕ
  pub resource_input_tokens : ℕ
  pub resource_output_tokens : ℕ
  pub error : String
  pub source : String
  pub actual : Option Usage
  pub turns : List TurnTokens

-- The constants of type `Source`.
abbrev pub source_estimated : String
source_estimated = "estimated"

abbrev pub source_actual : String
source_actual = "actual"

-- The optional counts of `Add`: the only one that is there, or the sum.
pub add_optional : Option ℕ → Option ℕ → Option ℕ
add_optional none none = none
add_optional none (some v) = some v
add_optional (some u) none = some u
add_optional (some u) (some v) = some (add64 u v)

unfoldable pub add : Usage → Option Usage → Usage
unfolding add_optional
add u none = u
add u (some other) = record {
  input_tokens = add64 u.input_tokens other.input_tokens;
  output_tokens = add64 u.output_tokens other.output_tokens;
  total_tokens = add64 u.total_tokens other.total_tokens;
  thought_tokens = add_optional u.thought_tokens other.thought_tokens;
  cached_read_tokens = add_optional u.cached_read_tokens other.cached_read_tokens;
  cached_write_tokens = add_optional u.cached_write_tokens other.cached_write_tokens;
}

-- A sum over records, of which some have no counts: the loops of `MergeCallHistory`.
module _ {A : Type 0} (tokens_of : A → Option TokenCount) (count : TokenCount → ℕ) where
  pub accumulate : ℕ → List A → ℕ
  accumulate n [] = n
  accumulate n (c ∷ cs) =
      accumulate (elim (tokens_of c) [ none ↦ n | some t ↦ add64 n (count t) ]) cs

unfoldable pub merge_call_history : Estimate → Option CallHistory → Estimate
unfolding accumulate
merge_call_history e none = e
merge_call_history e (some history) =
    let tool_in = accumulate (λ c. c.tokens) (λ t. t.input_tokens) 0 history.tool_calls in
    let tool_out = accumulate (λ c. c.tokens) (λ t. t.output_tokens) 0 history.tool_calls in
    record e {
      tool_input_tokens = if e.tool_input_tokens == 0 then tool_in else e.tool_input_tokens;
      tool_output_tokens = if e.tool_output_tokens == 0 then tool_out else e.tool_output_tokens;
      prompt_get_input_tokens =
          accumulate (λ c. c.tokens) (λ t. t.input_tokens) e.prompt_get_input_tokens
            history.prompt_gets;
      prompt_get_output_tokens =
          accumulate (λ c. c.tokens) (λ t. t.output_tokens) e.prompt_get_output_tokens
            history.prompt_gets;
      resource_input_tokens =
          accumulate (λ c. c.tokens) (λ t. t.input_tokens) e.resource_input_tokens
            history.resource_reads;
      resource_output_tokens =
          accumulate (λ c. c.tokens) (λ t. t.output_tokens) e.resource_output_tokens
            history.resource_reads;
    }

-- The inner loop of `RecalculateAggregates`: the rounds left, the calls from `callIdx` on,
-- `turnOutput` and `turnResults`; it returns the last three.
turn_loop : ℕ → List ToolCall → ℕ → ℕ → ℕ × ℕ × List ToolCall
turn_loop zero calls out res = (out, res, calls)
turn_loop (suc n) [] out res = (out, res, [])
turn_loop (suc n) (c ∷ calls) out res =
    turn_loop n calls (elim c.tokens [ none ↦ out | some t ↦ add64 out t.input_tokens ])
      (elim c.tokens [ none ↦ res | some t ↦ add64 res t.output_tokens ])

-- The outer loop, over `context`, `cumInput` and `cumOutput`.
turns_loop : List TurnTokens → List ToolCall → ℕ → ℕ → ℕ → ℕ × ℕ
unfolding turn_loop
turns_loop [] calls context cum_input cum_output = (cum_input, cum_output)
turns_loop (t ∷ ts) calls context cum_input cum_output =
    let (out, res, rest) = turn_loop (pos_part t.num_tool_calls) calls t.output_tokens 0 in
    turns_loop ts rest (add64 context (add64 out res)) (add64 cum_input context)
      (add64 cum_output out)

abbrev pub calls_of : Option CallHistory → List ToolCall
calls_of none = []
calls_of (some h) = h.tool_calls

-- The sums where there are no turns.
sum_breakdown : Estimate → Estimate
sum_breakdown e =
    let input =
      add64
        (add64 (add64 (add64 e.prompt_tokens e.tool_output_tokens) e.mcp_schema_tokens)
          e.resource_output_tokens)
        e.prompt_get_output_tokens in
    let output =
      add64
        (add64 (add64 (add64 e.message_tokens e.thinking_tokens) e.tool_input_tokens)
          e.resource_input_tokens)
        e.prompt_get_input_tokens in
    record e { input_tokens = input; output_tokens = output; total_tokens = add64 input output }

-- The sums over the turns.
sum_turns : Estimate → List TurnTokens → List ToolCall → Estimate
unfolding turns_loop
sum_turns e turns calls =
    let (input, output) = turns_loop turns calls (add64 e.mcp_schema_tokens e.prompt_tokens) 0 0 in
    record e { input_tokens = input; output_tokens = output; total_tokens = add64 input output }

pub by_turns : Estimate → List TurnTokens → List ToolCall → Estimate
unfolding sum_breakdown sum_turns
by_turns e [] calls = sum_breakdown e
by_turns e (t ∷ ts) calls = sum_turns e (t ∷ ts) calls

unfoldable pub recalculate_aggregates : Estimate → Option CallHistory → Estimate
unfolding by_turns
recalculate_aggregates e history =
    if str_eq e.source source_actual then e else by_turns e e.turns (calls_of history)

unfoldable pub to_usage : Estimate → Usage
to_usage e = elim e.actual [
  | some u ↦ u
  | none ↦ record {
    input_tokens = e.input_tokens;
    output_tokens = e.output_tokens;
    total_tokens = e.total_tokens;
    thought_tokens = none;
    cached_read_tokens = none;
    cached_write_tokens = none;
  }
]
