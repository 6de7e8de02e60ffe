-- ===== src/Assert/Recorded.antt =====
-- The assertions of a task on what its servers recorded: `evaluateTaskAssertions` of pkg/eval/runner.go
-- on the result of `GetAllCallHistory` of pkg/mcpproxy/server_manager.go.
use mcpchecker.Proxy.Entries.{all_entries-asked}
use mcpchecker.Agent.{ToolCallSummary}
use mcpchecker.Assert.Composite.{Library}
use mcpchecker.Assert.{TaskAssertions}
use mcpchecker.Assert.Duplicates.{HaveRequests}
use mathlib.Core.Path.{subst}
use mathlib.Core.List.{Permᴰ}
use mcpchecker.Proxy.Manager.{
  Reorders, Sorting, get_all_call_history, get_all_call_history-sorted, servers_of, sorted_entries,
}
use mcpchecker.Assert.Sets.{
  AllSatisfied, Outcome, evaluate_task_assertions, evaluate_task_assertions_iff, outcome_succeeded,
}
use mcpchecker.Prelude.{sym, All, List, Option, String, [], none, some, true, ◌↔◌, ◌∷◌, ◌≡◌, ◌≢◌}
use mcpchecker.Proxy.{ToolCall}
use mcpchecker.Proxy.Record.{Operation}

All-Perm : (P : ToolCall → Type 0) {xs ys : List ToolCall} → Permᴰ xs ys → All P xs → All P ys
All-Perm P Permᴰ.nil a = tt
All-Perm P (Permᴰ.cons e d) a = (subst P e a.0, All-Perm P d a.1)
All-Perm P (Permᴰ.swap e f) a = (subst P f a.1.0, (subst P e a.0, a.1.1))
All-Perm P (Permᴰ.trans d e) a = All-Perm P e (All-Perm P d a)

All-HaveRequests : (cs : List ToolCall) → All (λ c. c.request ≢ none) cs → HaveRequests cs
All-HaveRequests [] a = tt
All-HaveRequests (c ∷ cs) a = (a.0, All-HaveRequests cs a.1)

-- If the sort of the tool calls only reorders and no results stand yet, then whatever calls went
-- through the servers of a run, the evaluation of a task's assertions on the combined history
-- returns, its flag agrees with its results, and it is true exactly when the history of all those
-- calls, written from the calls alone and sorted, satisfies every set of assertions.
pub evaluate_recorded_calls :
    (lib : Library) (tool : String) (tcs : List ToolCallSummary)
    → (sets : List (Option TaskAssertions)) (o : Outcome) (sorting : Sorting)
    → (runs : List (String × List Operation)) → Reorders sorting.sort_tool_calls
    → o.assertion_results ≡ none
    → let made = sorted_entries sorting runs in
      let h = get_all_call_history sorting (servers_of runs) in
      (r : Outcome) × (evaluate_task_assertions lib tool h tcs sets o ≡ some r)
      × (r.all_assertions_passed ≡ outcome_succeeded r.assertion_results)
      × ((r.all_assertions_passed ≡ true) ↔ AllSatisfied lib tool made tcs sets)
evaluate_recorded_calls lib tool tcs sets o sorting runs reorders e =
    let made = sorted_entries sorting runs in
    subst
      (λ h.
        (r : Outcome) × (evaluate_task_assertions lib tool h tcs sets o ≡ some r)
        × (r.all_assertions_passed ≡ outcome_succeeded r.assertion_results)
        × ((r.all_assertions_passed ≡ true) ↔ AllSatisfied lib tool made tcs sets))
      (sym (get_all_call_history-sorted sorting runs))
      (evaluate_task_assertions_iff lib tool made tcs sets o
        (All-HaveRequests made.tool_calls (All-Perm _ (reorders _) (all_entries-asked runs))) e)
