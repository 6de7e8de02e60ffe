-- ===== src/Tokens/Compute.antt =====
-- `ComputeEstimate` of pkg/tokens/tokens.go. The tokenizer is a parameter: a count, or `none` where it
-- fails; a payload is counted as the JSON that it is serialised to.
use mcpchecker.Prelude.Word.{add64, int64_mod}
use mcpchecker.Prelude.{
  List, Option, Option-cases, String, [], arith, concat, inl, inr, none, some, ◌%◌, ◌++◌, ◌+◌, ◌<◌,
  ◌∷◌, ◌≡◌, ℕ,
}
use mcpchecker.Proxy.{Payload}
use mcpchecker.Tokens.{Estimate}

pub record Tokenizer : Type 0 where
  pub count_tokens : String → Option ℕ
  pub count_json_tokens : Payload → Option ℕ

pub record ToolCallData : Type 0 where
  pub name : String
  pub raw_input : Option Payload
  pub raw_output : Option Payload

-- `countTextWithErrors`: the count, and the label of a failure.
unfoldable pub count_text_with_errors : Tokenizer → String → String → ℕ × List String
count_text_with_errors tok text label = elim (tok.count_tokens text) [
  | none ↦ (0, label ∷ [])
  | some n ↦ (n % int64_mod, [])
]

-- One payload of a tool call, which may be nil, added to a sum.
count_payload : Tokenizer → String → Option Payload → ℕ → ℕ × List String
count_payload tok label none sum = (sum, [])
count_payload tok label (some p) sum = elim (tok.count_json_tokens p) [
  | none ↦ (sum, label ∷ [])
  | some n ↦ (add64 sum n, [])
]

-- The loop over the tool calls, over the two sums and the errors.
tool_calls_loop : Tokenizer → List ToolCallData → ℕ → ℕ → List String → ℕ × ℕ × List String
unfolding count_payload
tool_calls_loop tok [] input output errors = (input, output, errors)
tool_calls_loop tok (tc ∷ tcs) input output errors =
    let (input', e) = count_payload tok "tool_calls" tc.raw_input input in
    let (output', f) = count_payload tok "tool_results" tc.raw_output output in
    tool_calls_loop tok tcs input' output' (errors ++ (e ++ f))

-- `strings.Join(errors, ", ")`
join : List String → String
join [] = ""
join (e ∷ []) = e
join (e ∷ f ∷ es) = concat (e ∷ ", " ∷ join (f ∷ es) ∷ [])

unfoldable pub error_text : List String → String
unfolding join
error_text [] = ""
error_text (e ∷ es) = concat ("failed to count: " ∷ join (e ∷ es) ∷ [])

unfoldable pub compute_estimate :
    Tokenizer → String → String → String → List ToolCallData → Estimate
unfolding count_text_with_errors tool_calls_loop error_text
compute_estimate tok prompt message thinking tool_calls =
    let (prompt_tokens, e) = count_text_with_errors tok prompt "prompt" in
    let (message_tokens, f) = count_text_with_errors tok message "message" in
    let (thinking_tokens, g) = count_text_with_errors tok thinking "thinking" in
    let (input, output, errors) = tool_calls_loop tok tool_calls 0 0 (e ++ (f ++ g)) in
    record {
      input_tokens = 0;
      output_tokens = 0;
      total_tokens = 0;
      prompt_tokens = prompt_tokens;
      message_tokens = message_tokens;
      thinking_tokens = thinking_tokens;
      tool_input_tokens = input;
      tool_output_tokens = output;
      mcp_schema_tokens = 0;
      prompt_get_input_tokens = 0;
      prompt_get_output_tokens = 0;
      resource_input_tokens = 0;
      resource_output_tokens = 0;
      error = error_text errors;
      source = "";
      actual = none;
      turns = [];
    }

-- What the tokenizer counts of the payloads that are there, with no bound; what it cannot count is 0.
abbrev pub payload_tokens : Tokenizer → Option Payload → ℕ
payload_tokens tok none = 0
payload_tokens tok (some p) = elim (tok.count_json_tokens p) [ none ↦ 0 | some n ↦ n ]

abbrev pub sum_payloads : Tokenizer → (ToolCallData → Option Payload) → List ToolCallData → ℕ
sum_payloads tok get [] = 0
sum_payloads tok get (tc ∷ tcs) = payload_tokens tok (get tc) + sum_payloads tok get tcs

count_payload_sum :
    (tok : Tokenizer) (label : String) (o : Option Payload) (sum : ℕ)
    → sum < int64_mod
    → (count_payload tok label o sum).0 ≡ (sum + payload_tokens tok o) % int64_mod
unfolding count_payload
count_payload_sum tok label none sum h = omega arith
count_payload_sum tok label (some p) sum h = elim (Option-cases (tok.count_json_tokens p)) [
  | inl e ↦ rw (count_payload, payload_tokens, e) (omega arith)
  | inr (n, e) ↦ rw (count_payload, payload_tokens, e) (omega arith)
]

tool_calls_loop_sums :
    (tok : Tokenizer) (tcs : List ToolCallData) (input output : ℕ) (errors : List String)
    → input < int64_mod
    → output < int64_mod
    → ((tool_calls_loop tok tcs input output errors).0
        ≡ (input + sum_payloads tok (λ c. c.raw_input) tcs) % int64_mod)
      × ((tool_calls_loop tok tcs input output errors).1
          ≡ (output + sum_payloads tok (λ c. c.raw_output) tcs) % int64_mod)
unfolding tool_calls_loop
tool_calls_loop_sums tok [] input output errors h k = (omega arith, omega arith)
tool_calls_loop_sums tok (tc ∷ tcs) input output errors h k =
    let p = count_payload_sum tok "tool_calls" tc.raw_input input h in
    let q = count_payload_sum tok "tool_results" tc.raw_output output k in
    let more =
      (count_payload tok "tool_calls" tc.raw_input input).1
      ++ (count_payload tok "tool_results" tc.raw_output output).1 in
    let (x, y) =
      tool_calls_loop_sums tok tcs (count_payload tok "tool_calls" tc.raw_input input).0
        (count_payload tok "tool_results" tc.raw_output output).0 (errors ++ more)
        (omega (arith, p)) (omega (arith, q)) in
    (omega (arith, x, p), omega (arith, y, q))

-- Whatever the tokenizer, an estimate's tool input and output are the sums of what it counts of the
-- inputs and outputs that the tool calls have, modulo 2^64.
pub compute_estimate_sums :
    (tok : Tokenizer) (prompt message thinking : String) (tcs : List ToolCallData)
    → let e = compute_estimate tok prompt message thinking tcs in
      (e.tool_input_tokens ≡ sum_payloads tok (λ c. c.raw_input) tcs % int64_mod)
      × (e.tool_output_tokens ≡ sum_payloads tok (λ c. c.raw_output) tcs % int64_mod)
unfolding compute_estimate
compute_estimate_sums tok prompt message thinking tcs =
    let failures =
      (count_text_with_errors tok prompt "prompt").1
      ++ ((count_text_with_errors tok message "message").1
          ++ (count_text_with_errors tok thinking "thinking").1) in
    let (x, y) = tool_calls_loop_sums tok tcs 0 0 failures (omega arith) (omega arith) in
    (omega (arith, x), omega (arith, y))
