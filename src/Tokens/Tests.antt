-- ===== src/Tokens/Tests.antt =====
-- Runs of the token counts.
use mcpchecker.Tokens.Turns.{resent, written}
use mcpchecker.Tokens.Aggregate.{sums, recalculate_turns, turns_ignore_reads, with_reads}
use mcpchecker.Tokens.Compute.{
  Tokenizer, ToolCallData, compute_estimate, compute_estimate_sums, sum_payloads,
}
use mcpchecker.Tokens.History.{IsRanged, merge_call_history_sums}
use mcpchecker.Tokens.{recalculate_aggregates, Estimate, Usage, merge_call_history}
use mcpchecker.Prelude.Word.{int64_mod}
use mcpchecker.Prelude.{
  List, concat, length, ℕ, Option, [], arith, none, refl, some, true, ◌%◌, ◌*◌, ◌+◌, ◌∷◌, ◌≡◌,
}
use mcpchecker.Prelude.Int.{pos}
use mcpchecker.Proxy.{CallHistory, ToolCall}

abbrev usage : ℕ → Option ℕ → Usage
usage n thought = record {
  input_tokens = n;
  output_tokens = 1;
  total_tokens = n + 1;
  thought_tokens = thought;
  cached_read_tokens = none;
  cached_write_tokens = some n;
}

abbrev counted : ℕ → ℕ → ToolCall
counted input output = record {
  call = record { server_name = "kubernetes"; timestamp = 0; success = true; error = "" };
  tool_name = "pods_list";
  request = none;
  result = none;
  tokens =
      some (record { input_tokens = input; output_tokens = output; total_tokens = input + output });
}

abbrev history : CallHistory
history = record {
  tool_calls = counted 3 50 ∷ counted 4 70 ∷ [];
  resource_reads = [];
  prompt_gets = [];
}

-- Two turns, of which the first one calls a tool.
abbrev estimate : Estimate
estimate = record {
  input_tokens = 0;
  output_tokens = 0;
  total_tokens = 0;
  prompt_tokens = 100;
  message_tokens = 20;
  thinking_tokens = 0;
  tool_input_tokens = 0;
  tool_output_tokens = 9;
  mcp_schema_tokens = 1000;
  prompt_get_input_tokens = 5;
  prompt_get_output_tokens = 6;
  resource_input_tokens = 7;
  resource_output_tokens = 8;
  error = "";
  source = "estimated";
  actual = none;
  turns =
      record { output_tokens = 10; num_tool_calls = pos 1 }
      ∷ record { output_tokens = 2; num_tool_calls = pos 5 }
      ∷ [];
}

-- The first turn sends 1100 and the second one 1100 + (10 + 3) + 50.
turns_run : sums (recalculate_aggregates estimate (some history)) ≡ (2263, 19, 2282)
unfolding recalculate_aggregates
turns_run = refl

estimate-IsRanged : IsRanged estimate
estimate-IsRanged = record {
  prompt_get_input = omega arith;
  prompt_get_output = omega arith;
  resource_input = omega arith;
  resource_output = omega arith;
}

merge_call_history_sums_example :
    let m = merge_call_history estimate (some history) in
    (m.tool_input_tokens ≡ 7)
    × (m.tool_output_tokens ≡ 9)
    × (m.prompt_get_input_tokens ≡ 5)
    × (m.prompt_get_output_tokens ≡ 6)
    × (m.resource_input_tokens ≡ 7)
    × (m.resource_output_tokens ≡ 8)
merge_call_history_sums_example = merge_call_history_sums estimate history estimate-IsRanged

recalculate_turns_example :
    ((recalculate_aggregates estimate (some history)).input_tokens
      ≡ (2 * 1100 + resent ((13, 50) ∷ (6, 70) ∷ [])) % int64_mod)
    × ((recalculate_aggregates estimate (some history)).output_tokens
        ≡ written ((13, 50) ∷ (6, 70) ∷ []) % int64_mod)
recalculate_turns_example = recalculate_turns estimate (some history) (λ e. cc) (λ e. cc)

turns_ignore_reads_example :
    sums (recalculate_aggregates (with_reads estimate 1 2 3 4) (some history))
    ≡ sums (recalculate_aggregates estimate (some history))
turns_ignore_reads_example = turns_ignore_reads estimate (some history) 1 2 3 4 (λ e. cc)

-- A tokenizer that counts seven for any text and the bytes of a payload, and fails on an empty one.
abbrev tokenizer : Tokenizer
tokenizer = record {
  count_tokens = λ s. some 7;
  count_json_tokens = λ p. elim p [ [] ↦ none | _ ∷ bs ↦ some (length bs + 1) ];
}

abbrev tool_calls : List ToolCallData
tool_calls =
    record { name = "pods_list"; raw_input = some (1 ∷ 2 ∷ []); raw_output = some [] }
    ∷ record { name = "pods_get"; raw_input = none; raw_output = some (3 ∷ []) }
    ∷ []

compute_runs :
    (compute_estimate tokenizer "p" "m" "" tool_calls).error ≡ "failed to count: tool_results"
unfolding compute_estimate concat
compute_runs = refl

compute_estimate_sums_example :
    let e = compute_estimate tokenizer "p" "m" "" tool_calls in
    (e.tool_input_tokens ≡ sum_payloads tokenizer (λ c. c.raw_input) tool_calls % int64_mod)
    × (e.tool_output_tokens ≡ sum_payloads tokenizer (λ c. c.raw_output) tool_calls % int64_mod)
compute_estimate_sums_example = compute_estimate_sums tokenizer "p" "m" "" tool_calls
