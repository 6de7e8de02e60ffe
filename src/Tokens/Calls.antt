-- ===== src/Tokens/Calls.antt =====
-- pkg/mcpproxy/tokens.go: the counts of the recorded calls and of the servers' schemas. The history's
-- records are pointers that are written in place; here the history with its counts is returned.
use mcpchecker.Proxy.{CallHistory, Payload, PromptGet, ResourceRead, TokenCount, ToolCall}
use mcpchecker.Run.Workers.{count}
use mcpchecker.Prelude.Word.{add64, int64_mod}
use mcpchecker.Prelude.{
  ℕ, List, Option, String, [], concat, if◌then◌else◌, none, some, str_eq, ◌%◌, ◌++◌, ◌∷◌,
}
use mcpchecker.Tokens.Compute.{error_text, count_text_with_errors, Tokenizer}

unfoldable pub new_token_count : ℕ → ℕ → TokenCount
new_token_count input output = record {
  input_tokens = input;
  output_tokens = output;
  total_tokens = add64 input output;
}

-- A count of what may be nil: 0 where it is, or where it cannot be counted, which is an error.
unfoldable pub count_of : {A : Type 0} → (A → Option ℕ) → String → Option A → ℕ × List String
count_of count label none = (0, [])
count_of count label (some a) = elim (count a) [
  | some n ↦ (n % int64_mod, [])
  | none ↦ (0, label ∷ [])
]

unfoldable pub count_tool_call : Tokenizer → ToolCall → ToolCall × List String
unfolding count_of new_token_count
count_tool_call tok tc =
    let (input, e) =
      count_of (λ req. tok.count_json_tokens req.arguments)
        (concat ("tool_input:" ∷ tc.tool_name ∷ [])) tc.request in
    let (output, f) =
      count_of tok.count_json_tokens (concat ("tool_output:" ∷ tc.tool_name ∷ [])) tc.result in
    (record tc { tokens = some (new_token_count input output) }, e ++ f)

unfoldable pub count_resource_read : Tokenizer → ResourceRead → ResourceRead × List String
unfolding count_of new_token_count
count_resource_read tok rr =
    let (input, e) =
      count_of (λ req. tok.count_tokens req.uri) (concat ("resource_input:" ∷ rr.uri ∷ []))
        rr.request in
    let (output, f) =
      count_of tok.count_json_tokens (concat ("resource_output:" ∷ rr.uri ∷ [])) rr.result in
    (record rr { tokens = some (new_token_count input output) }, e ++ f)

unfoldable pub count_prompt_get : Tokenizer → PromptGet → PromptGet × List String
unfolding count_of new_token_count
count_prompt_get tok pg =
    let (input, e) =
      count_of (λ req. tok.count_json_tokens req.arguments)
        (concat ("prompt_input:" ∷ pg.name ∷ [])) pg.request in
    let (output, f) =
      count_of tok.count_json_tokens (concat ("prompt_output:" ∷ pg.name ∷ [])) pg.result in
    (record pg { tokens = some (new_token_count input output) }, e ++ f)

-- A loop over records, with the errors so far.
unfoldable pub count_all : {A : Type 0} → (A → A × List String) → List A → List A × List String
count_all count [] = ([], [])
count_all count (a ∷ as_rest) =
    let (b, e) = count a in let (bs, f) = count_all count as_rest in (b ∷ bs, e ++ f)

unfoldable pub compute_call_history_tokens :
    Tokenizer → Option CallHistory → Option CallHistory × String
unfolding count_all count_tool_call count_resource_read count_prompt_get error_text
compute_call_history_tokens tok none = (none, "")
compute_call_history_tokens tok (some h) =
    let (calls, e) = count_all (count_tool_call tok) h.tool_calls in
    let (reads, f) = count_all (count_resource_read tok) h.resource_reads in
    let (gets, g) = count_all (count_prompt_get tok) h.prompt_gets in
    (
      some (record { tool_calls = calls; resource_reads = reads; prompt_gets = gets }),
      error_text (e ++ (f ++ g)),
    )

-- What a server tells of itself, and of each tool that it allows.
pub record Tool : Type 0 where
  pub name : String
  pub description : String
  pub input_schema : Option Payload

pub record Server : Type 0 where
  pub name : String
  pub instructions : String
  pub allowed_tools : List Tool

unfoldable pub tool_text : Tool → String
tool_text t = if str_eq t.description "" then t.name else concat (t.name ∷ " " ∷ t.description ∷ [])

-- The loop over the tools of a server, over `total` and `errors`.
unfoldable pub count_tools : Tokenizer → List Tool → ℕ → List String → ℕ × List String
unfolding count_of count_text_with_errors tool_text
count_tools tok [] total errors = (total, errors)
count_tools tok (t ∷ tools) total errors =
    let (text, e) = count_text_with_errors tok (tool_text t) (concat ("tool_def:" ∷ t.name ∷ [])) in
    let (schema, f) =
      count_of tok.count_json_tokens (concat ("tool_schema:" ∷ t.name ∷ [])) t.input_schema in
    count_tools tok tools (add64 (add64 total text) schema) (errors ++ (e ++ f))

unfoldable pub count_instructions : Tokenizer → Server → ℕ × List String
unfolding count_text_with_errors
count_instructions tok s =
    if str_eq s.instructions ""
    then (0, [])
    else count_text_with_errors tok s.instructions (concat ("instructions:" ∷ s.name ∷ []))

-- The loop over the servers.
unfoldable pub count_servers : Tokenizer → List Server → ℕ → List String → ℕ × List String
unfolding count_instructions count_tools
count_servers tok [] total errors = (total, errors)
count_servers tok (s ∷ servers) total errors =
    let (n, e) = count_instructions tok s in
    let (total1, errors1) = count_tools tok s.allowed_tools (add64 total n) (errors ++ e) in
    count_servers tok servers total1 errors1

-- `if len(errors) > 0`
unfoldable pub error_of : List String → Option String
unfolding error_text
error_of [] = none
error_of (e ∷ es) = some (error_text (e ∷ es))

-- `ComputeSchemaTokens`: the total, and the error if there is one.
unfoldable pub compute_schema_tokens : Tokenizer → List Server → ℕ × Option String
unfolding count_servers error_of
compute_schema_tokens tok servers =
    let (total, errors) = count_servers tok servers 0 [] in (total, error_of errors)
