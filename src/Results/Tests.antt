-- ===== src/Results/Tests.antt =====
-- Runs of the reports, with pairs of counts for rates.
use mcpchecker.Run.{EvalResult, zero_result}
use mcpchecker.Prelude.Assoc.{insert, lookup}
use mcpchecker.Results.Diff.{TaskDiff, calculate_diff}
use mcpchecker.Results.Reasons.{
  IsReason, collect_failed_assertions_iff, failure_reason_first, reported,
}
use mcpchecker.Assert.{SingleAssertionResult, succeeded}
use mcpchecker.Results.Diff.Names.{calculate_diff_names}
use mcpchecker.Assert.Result.{composite_succeeded, no_results}
use mcpchecker.Prelude.Word.{int64_mod}
use mcpchecker.Results.Diff.Lookup.{Changed, Named, last_named}
use mcpchecker.Assert.Sets.{outcome_succeeded}
use mcpchecker.Results.Counts.{calculate_stats_counts, sum_tokens}
use mcpchecker.Prelude.{
  All, Any, Bool, List, Option, String, [], false, none, refl, some, true, ◌%◌, ◌↔◌, ◌∷◌, ◌≡◌, ◌≤◌,
  ℕ,
}
use mcpchecker.Results.{calculate_stats, collect_failed_assertions, failure_reason}

abbrev result : String → Bool → EvalResult
result name ok = record zero_result {
  task_name = name;
  task_passed = ok;
  task_error = "";
  assertion_results = some (record no_results {
    tools_used = some (record { passed = ok; reason = "late"; details = [] });
    call_order = some (record { passed = true; reason = ""; details = [] });
  });
  all_assertions_passed = ok;
  token_estimate = none;
}

abbrev pair : ℕ → ℕ → ℕ × ℕ
pair a b = (a, b)

abbrev base_run : List EvalResult
base_run = result "create" true ∷ result "fix" false ∷ result "old" true ∷ []

abbrev head_run : List EvalResult
head_run = result "create" false ∷ result "fix" true ∷ result "new" true ∷ []

abbrev names : List TaskDiff → List String
names [] = []
names (d ∷ ds) = d.task_name ∷ names ds

diff_runs :
    let d = calculate_diff pair (0, 0) "a" "b" base_run head_run in
    (names d.regressions ≡ "create" ∷ [])
    × (names d.improvements ≡ "fix" ∷ [])
    × (names d.new ≡ "new" ∷ [])
    × (names d.removed ≡ "old" ∷ [])
unfolding calculate_diff lookup insert
diff_runs = (refl, refl, refl, refl)

reason_runs : failure_reason (result "create" false) ≡ "late"
unfolding failure_reason
reason_runs = refl

calculate_diff_names_example :
    let d = calculate_diff pair (0, 0) "a" "b" base_run head_run in
    (Named "create" d.regressions
      ↔ Any (λ c. Changed (last_named c.task_name base_run) true false "create" c) head_run)
    × (Named "create" d.improvements
        ↔ Any (λ c. Changed (last_named c.task_name base_run) false true "create" c) head_run)
    × (Named "create" d.new
        ↔ Any (λ c. (c.task_name ≡ "create") × (last_named c.task_name base_run ≡ none)) head_run)
    × (Named "create" d.removed
        ↔ Any (λ b. (b.task_name ≡ "create") × (last_named b.task_name head_run ≡ none)) base_run)
calculate_diff_names_example = calculate_diff_names pair (0, 0) "a" "b" base_run head_run "create"

calculate_stats_counts_example :
    let s = calculate_stats pair (0, 0) "a" base_run in
    (s.tasks_total ≡ 3)
    × (s.tasks_passed ≤ s.tasks_total)
    × ((s.tasks_total ≡ s.tasks_passed) ↔ All (λ r. r.task_passed ≡ true) base_run)
    × (s.assertions_passed ≤ s.assertions_total)
    × ((s.assertions_passed ≡ s.assertions_total)
        ↔ All (λ r. outcome_succeeded r.assertion_results ≡ true) base_run)
    × (s.total_tokens ≡ sum_tokens base_run % int64_mod)
calculate_stats_counts_example = calculate_stats_counts pair (0, 0) "a" base_run

collect_failed_assertions_iff_example :
    (collect_failed_assertions no_results ≡ [])
    ↔ All (λ f. succeeded f ≡ true) (reported no_results)
collect_failed_assertions_iff_example = collect_failed_assertions_iff no_results

abbrev unloaded : Option SingleAssertionResult
unloaded = some (record { passed = false; reason = "Required skill not loaded"; details = [] })

abbrev forgetful : EvalResult
forgetful = record (result "create" true) {
  assertion_results = some (record no_results { skills_loaded = unloaded });
}

failure_reason_first_example :
    let a = record no_results { skills_loaded = unloaded } in
    IsReason (reported a) (failure_reason forgetful)
    × ((composite_succeeded a ≡ true) ↔ (
        All (λ f. succeeded f ≡ true) (reported a)
        × (succeeded unloaded ≡ true)
        × (succeeded none ≡ true)))
failure_reason_first_example =
    failure_reason_first forgetful (record no_results { skills_loaded = unloaded }) refl refl

-- A task that fails on a skill alone has no reason and no listed failure.
skill_failure_runs :
    (composite_succeeded (record no_results { skills_loaded = unloaded }) ≡ false)
    × (failure_reason forgetful ≡ "")
    × (collect_failed_assertions (record no_results { skills_loaded = unloaded }) ≡ [])
unfolding composite_succeeded failure_reason collect_failed_assertions
skill_failure_runs = (refl, refl, refl)
