-- ===== src/Assert/Composite.antt =====
-- `NewCompositeAssertionEvaluator` of pkg/eval/assert.go and the `Evaluate` that it returns.
pub mod Fields
pub mod Asked
pub mod Satisfied
use mcpchecker.Prelude.{String, Bool, Option, none, some, List, [], ◌∷◌, ◌++◌, if◌then◌else◌, ◌>>=◌}
use mcpchecker.Prelude.Int.{ℤ}
use mcpchecker.Proxy.{Payload, CallHistory}
use mcpchecker.Assert.{
  ToolAssertion, ResourceAssertion, PromptAssertion, CallOrderAssertion, TaskAssertions,
  SingleAssertionResult,
}
use mcpchecker.Assert.Match.{Regexp}
use mcpchecker.Assert.Order.{IndexedCall, evaluate_call_order}
use mcpchecker.Assert.Duplicates.{evaluate_no_duplicates}
use mcpchecker.Assert.Search.{
  evaluate_tools_used, evaluate_require_any, evaluate_tools_not_used, evaluate_min_tool_calls,
  evaluate_max_tool_calls, evaluate_resources_read, evaluate_resources_not_read,
  evaluate_prompts_used, evaluate_prompts_not_used,
}
use mcpchecker.Assert.Result.{CompositeAssertionResult, no_results}

-- The standard library's functions that evaluation calls: `regexp.MatchString`, `sort.Slice` by the
-- time of the calls, and `json.Marshal`, which may fail.
pub record Library : Type 0 where
  pub match_string : Regexp
  pub sort_calls : List IndexedCall → List IndexedCall
  pub marshal_json : Payload → Option String

-- The implementations of `SingleAssertionEvaluator`.
pub data Evaluator : Type 0 where
  tools_used : List ToolAssertion → Evaluator
  require_any : List ToolAssertion → Evaluator
  tools_not_used : List ToolAssertion → Evaluator
  min_tool_calls : ℤ → Evaluator
  max_tool_calls : ℤ → Evaluator
  resources_read : List ResourceAssertion → Evaluator
  resources_not_read : List ResourceAssertion → Evaluator
  prompts_used : List PromptAssertion → Evaluator
  prompts_not_used : List PromptAssertion → Evaluator
  call_order : List CallOrderAssertion → Evaluator
  no_duplicate_calls : Evaluator

-- The method `Evaluate` of each; `none` is a panic.
unfoldable pub evaluate_single : Library → CallHistory → Evaluator → Option SingleAssertionResult
evaluate_single lib h (tools_used items) = some (evaluate_tools_used lib.match_string items h)
evaluate_single lib h (require_any items) = some (evaluate_require_any lib.match_string items h)
evaluate_single lib h (tools_not_used items) =
    some (evaluate_tools_not_used lib.match_string items h)
evaluate_single lib h (min_tool_calls min) = some (evaluate_min_tool_calls min h)
evaluate_single lib h (max_tool_calls max) = some (evaluate_max_tool_calls max h)
evaluate_single lib h (resources_read items) =
    some (evaluate_resources_read lib.match_string items h)
evaluate_single lib h (resources_not_read items) =
    some (evaluate_resources_not_read lib.match_string items h)
evaluate_single lib h (prompts_used items) = some (evaluate_prompts_used lib.match_string items h)
evaluate_single lib h (prompts_not_used items) =
    some (evaluate_prompts_not_used lib.match_string items h)
evaluate_single lib h (call_order items) = evaluate_call_order lib.sort_calls items h
evaluate_single lib h no_duplicate_calls = evaluate_no_duplicates h.tool_calls

-- The `switch` on the evaluator's type: the field that its result goes to.
unfoldable pub assign :
    Evaluator → Option SingleAssertionResult → CompositeAssertionResult → CompositeAssertionResult
assign (tools_used _) got res = record res { tools_used = got }
assign (require_any _) got res = record res { require_any = got }
assign (tools_not_used _) got res = record res { tools_not_used = got }
assign (min_tool_calls _) got res = record res { min_tool_calls = got }
assign (max_tool_calls _) got res = record res { max_tool_calls = got }
assign (resources_read _) got res = record res { resources_read = got }
assign (resources_not_read _) got res = record res { resources_not_read = got }
assign (prompts_used _) got res = record res { prompts_used = got }
assign (prompts_not_used _) got res = record res { prompts_not_used = got }
assign (call_order _) got res = record res { call_order = got }
assign no_duplicate_calls got res = record res { no_duplicate_calls = got }

evaluate_loop :
    Library
    → CallHistory
    → List Evaluator
    → CompositeAssertionResult
    → Option CompositeAssertionResult
unfolding evaluate_single assign
evaluate_loop lib h [] res = some res
evaluate_loop lib h (eval ∷ evals) res = do
  got ← evaluate_single lib h eval
  evaluate_loop lib h evals (assign eval (some got) res)

-- `if len(items) > 0 { append }`, `if p != nil { append }` and `if b { append }`.
if_any : {A : Type 0} → List A → (List A → Evaluator) → List Evaluator
if_any [] make = []
if_any (a ∷ items) make = make (a ∷ items) ∷ []

if_set : Option ℤ → (ℤ → Evaluator) → List Evaluator
if_set none make = []
if_set (some n) make = make n ∷ []

unfoldable pub new_composite_evaluator : TaskAssertions → List Evaluator
unfolding if_any if_set
new_composite_evaluator a =
    if_any a.tools_used tools_used
    ++ (if_any a.require_any require_any
        ++ (if_any a.tools_not_used tools_not_used
            ++ (if_set a.min_tool_calls min_tool_calls
                ++ (if_set a.max_tool_calls max_tool_calls
                    ++ (if_any a.resources_read resources_read
                        ++ (if_any a.resources_not_read resources_not_read
                            ++ (if_any a.prompts_used prompts_used
                                ++ (if_any a.prompts_not_used prompts_not_used
                                    ++ (if_any a.call_order call_order
                                        ++ (if a.no_duplicate_calls
                                            then no_duplicate_calls ∷ []
                                            else []))))))))))

unfoldable pub evaluate_composite :
    Library → List Evaluator → CallHistory → Option CompositeAssertionResult
unfolding evaluate_loop
evaluate_composite lib evals h = evaluate_loop lib h evals no_results
