-- ===== src/Results.antt =====
-- pkg/results/results.go: what is counted and reported of the results of a run. Rates are `float64`s: the
-- type, its zero and the quotient of two counts are parameters. A count of things in memory is a number.
pub mod Counts
pub mod Reasons
pub mod Diff
mod Tests
use mcpchecker.Run.{EvalResult}
use mcpchecker.Prelude.Word.{add64}
use mcpchecker.Prelude.{
  ℕ, Bool, List, Option, String, [], concat, false, if◌then◌else◌, length, ltb, none, not, some,
  str_eq, true, ◌++◌, ◌+◌, ◌∷◌,
}
use mcpchecker.Assert.{SingleAssertionResult}
use mcpchecker.Assert.Result.{CompositeAssertionResult, total_assertions, passed_assertions}
use mcpchecker.Tokens.{Estimate}

pub record Stats (Float : Type 0) : Type 0 where
  pub results_file : String
  pub tasks_total : ℕ
  pub tasks_passed : ℕ
  pub task_pass_rate : Float
  pub assertions_total : ℕ
  pub assertions_passed : ℕ
  pub assertion_pass_rate : Float
  pub total_tokens : ℕ
  pub mcp_schema_tokens : ℕ
  pub tasks_with_tokens : ℕ

-- `PassedAssertions` and `TotalAssertions` of one result.
unfoldable pub task_passed_assertions : EvalResult → ℕ
task_passed_assertions r = elim r.assertion_results [ none ↦ 0 | some a ↦ passed_assertions a ]

unfoldable pub task_total_assertions : EvalResult → ℕ
task_total_assertions r = elim r.assertion_results [ none ↦ 0 | some a ↦ total_assertions a ]

module _ {Float : Type 0} where
  -- One round of the loop over the results.
  count_assertions : Option CompositeAssertionResult → Stats Float → Stats Float
  count_assertions none s = s
  count_assertions (some a) s = record s {
    assertions_total = s.assertions_total + total_assertions a;
    assertions_passed = s.assertions_passed + passed_assertions a;
  }

  count_tokens : Option Estimate → Stats Float → Stats Float
  count_tokens none s = s
  count_tokens (some e) s = record s {
    total_tokens = add64 s.total_tokens e.total_tokens;
    mcp_schema_tokens = add64 s.mcp_schema_tokens e.mcp_schema_tokens;
    tasks_with_tokens = s.tasks_with_tokens + 1;
  }

  count_passed_task : Bool → Stats Float → Stats Float
  count_passed_task true s = record s { tasks_passed = s.tasks_passed + 1 }
  count_passed_task false s = s

  stats_loop : List EvalResult → Stats Float → Stats Float
  unfolding count_assertions count_tokens count_passed_task
  stats_loop [] s = s
  stats_loop (r ∷ rs) s = stats_loop rs (
      count_tokens r.token_estimate
        (count_assertions r.assertion_results (count_passed_task r.task_passed s)))

-- The quotient of two counts, where there is something to count.
rate : {Float : Type 0} → (ℕ → ℕ → Float) → Float → ℕ → ℕ → Float
rate divide zero_float part whole = if ltb 0 whole then divide part whole else zero_float

unfoldable pub calculate_stats :
    {Float : Type 0} → (ℕ → ℕ → Float) → Float → String → List EvalResult → Stats Float
unfolding stats_loop rate
calculate_stats divide zero_float results_file results =
    let s = stats_loop results (record {
      results_file = results_file;
      tasks_total = length results;
      tasks_passed = 0;
      task_pass_rate = zero_float;
      assertions_total = 0;
      assertions_passed = 0;
      assertion_pass_rate = zero_float;
      total_tokens = 0;
      mcp_schema_tokens = 0;
      tasks_with_tokens = 0;
    }) in
    record s {
      task_pass_rate = rate divide zero_float s.tasks_passed s.tasks_total;
      assertion_pass_rate = rate divide zero_float s.assertions_passed s.assertions_total;
    }

-- `if field != nil && !field.Passed { return field.Reason }`, and what follows it.
reason_or : Option SingleAssertionResult → String → String
reason_or none rest = rest
reason_or (some r) rest = if not r.passed then r.reason else rest

assertions_reason : Option CompositeAssertionResult → String
unfolding reason_or
assertions_reason none = ""
assertions_reason (some a) = reason_or a.tools_used (
    reason_or a.require_any (
      reason_or a.tools_not_used (
        reason_or a.min_tool_calls (
          reason_or a.max_tool_calls (
            reason_or a.resources_read (
              reason_or a.resources_not_read (
                reason_or a.prompts_used (
                  reason_or a.prompts_not_used
                    (reason_or a.call_order (reason_or a.no_duplicate_calls ""))))))))))

unfoldable pub failure_reason : EvalResult → String
unfolding assertions_reason
failure_reason r =
    if not (str_eq r.task_error "") then r.task_error else assertions_reason r.assertion_results

-- `addFailure`
add_failure : String → Option SingleAssertionResult → List String
add_failure name none = []
add_failure name (some r) = if not r.passed then concat (name ∷ ": " ∷ r.reason ∷ []) ∷ [] else []

unfoldable pub collect_failed_assertions : CompositeAssertionResult → List String
unfolding add_failure
collect_failed_assertions a =
    add_failure "ToolsUsed" a.tools_used
    ++ (add_failure "RequireAny" a.require_any
        ++ (add_failure "ToolsNotUsed" a.tools_not_used
            ++ (add_failure "MinToolCalls" a.min_tool_calls
                ++ (add_failure "MaxToolCalls" a.max_tool_calls
                    ++ (add_failure "ResourcesRead" a.resources_read
                        ++ (add_failure "ResourcesNotRead" a.resources_not_read
                            ++ (add_failure "PromptsUsed" a.prompts_used
                                ++ (add_failure "PromptsNotUsed" a.prompts_not_used
                                    ++ (add_failure "CallOrder" a.call_order
                                        ++ add_failure "NoDuplicateCalls"
                                            a.no_duplicate_calls)))))))))
