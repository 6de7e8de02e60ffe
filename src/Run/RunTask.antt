-- ===== src/Run/RunTask.antt =====
-- `runTask`, `executeSingleRun` and `executeTask` of pkg/eval/runner.go.
use mcpchecker.Task.{TaskRunner}
use mcpchecker.Run.Execute.{Outside, ProgressEvent}
use mcpchecker.Assert.Sets.{evaluate_task_assertions}
use mcpchecker.Run.Timeouts.{answer, resolve_cleanup_timeout, resolve_task_timeout}
use mcpchecker.Run.Single.{
  check_timeout, clean_up, event, execute_task_steps, failed_with, named_result, note_tokens,
  setup_failed, setup_task_resources, tool_calls_of, with_timeout_if,
}
use mcpchecker.Prelude.{
  ℕ, List, Option, String, [], concat, if◌then◌else◌, none, some, suc, zero, ◌++◌, ◌+◌, ◌>>=◌, ◌∷◌,
}
use mcpchecker.Prelude.Int.{pos_part, ℤ}
use mcpchecker.Prelude.Result.{Result, err, ok}
use mcpchecker.Run.{get_runs_for_task, EvalRunner, EvalTask, EvalResult}

module _ {Ctx Mgr W : Type 0} (o : Outside Ctx Mgr W) where
  -- `r.evaluateTaskAssertions`, on the history at that time.
  unfoldable pub assess : EvalRunner → EvalTask → Mgr → EvalResult → W → Option EvalResult
  assess r tc mgr result w = do
    outcome ←
        evaluate_task_assertions o.library r.skill_tool_name (o.get_all_call_history mgr w)
          (tool_calls_of result.agent_output) tc.assertions
          (record {
            assertion_results = result.assertion_results;
            all_assertions_passed = result.all_assertions_passed;
          })
    some (record result {
      assertion_results = outcome.assertion_results;
      all_assertions_passed = outcome.all_assertions_passed;
    })

  unfoldable pub complete_event : EvalTask → EvalResult → ProgressEvent
  complete_event tc result =
      event "task_complete"
        (concat (
          "Completed task: "
          ∷ tc.spec.metadata.name
          ∷ " (passed: "
          ∷ (if result.task_passed then "true" else "false")
          ∷ ")"
          ∷ []))
        result

  -- What follows the agent and the verification, to the end of the deferred cleanup.
  unfoldable pub finish_task :
      EvalRunner
      → EvalTask
      → Ctx
      → Option ℤ
      → TaskRunner Ctx W
      → Mgr
      → EvalResult
      → W
      → Option (EvalResult × W)
  unfolding assess note_tokens complete_event clean_up
  finish_task r tc ctx cleanup_timeout runner mgr result w =
      let message = concat ("Evaluating assertions for task: " ∷ tc.spec.metadata.name ∷ []) in
      let w1 = o.report (event "task_assertions" message result) w in
      do
        assessed ← assess r tc mgr result w1
        let counted = note_tokens o mgr assessed w1 in
            let w2 = o.report (complete_event tc counted) w1 in
            some (clean_up o ctx cleanup_timeout runner mgr counted w2)

  unfoldable pub run_steps_of_task :
      EvalRunner
      → EvalTask
      → Ctx
      → Ctx
      → Option ℤ
      → Option ℤ
      → TaskRunner Ctx W
      → Mgr
      → EvalResult
      → W
      → Option (EvalResult × W)
  unfolding execute_task_steps check_timeout finish_task
  run_steps_of_task r tc ctx task_ctx timeout cleanup_timeout runner mgr result w =
      let (done, runner1, w1) = execute_task_steps o task_ctx runner mgr result w in
      let (checked, w2) = check_timeout o tc timeout task_ctx done w1 in
      finish_task r tc ctx cleanup_timeout runner1 mgr checked w2

  -- What follows the setup of the resources.
  unfoldable pub run_ready :
      EvalRunner
      → EvalTask
      → Ctx
      → Ctx
      → Option ℤ
      → Option ℤ
      → EvalResult × Result (TaskRunner Ctx W × Mgr) × W
      → Option (EvalResult × W)
  unfolding setup_failed run_steps_of_task
  run_ready r tc ctx task_ctx timeout cleanup_timeout (noted, err e, w) =
      some (setup_failed o tc timeout task_ctx e noted w)
  run_ready r tc ctx task_ctx timeout cleanup_timeout (noted, ok (runner, mgr), w) =
      run_steps_of_task r tc ctx task_ctx timeout cleanup_timeout runner mgr noted w

  unfoldable pub run_with_timeouts :
      EvalRunner → EvalTask → Ctx → Option ℤ → Option ℤ → W → Option (EvalResult × W)
  unfolding with_timeout_if setup_task_resources run_ready
  run_with_timeouts r tc ctx timeout cleanup_timeout w =
      let result = named_result tc in
      let name = tc.spec.metadata.name in
      let w1 = o.report (event "task_start" (concat ("Starting task: " ∷ name ∷ [])) result) w in
      let w2 = o.report (event "task_setup" (concat ("Setting up task: " ∷ name ∷ [])) result) w1 in
      let (task_ctx, w3) = with_timeout_if o timeout ctx w2 in
      do
        ready ← setup_task_resources o task_ctx tc result w3
        run_ready r tc ctx task_ctx timeout cleanup_timeout ready

  -- `runTask`, which returns a result and an error.
  unfoldable pub with_no_error :
      Option (EvalResult × W) → Option (Option EvalResult × Option String × W)
  with_no_error none = none
  with_no_error (some (result, w)) = some (some result, none, w)

  unfoldable pub run_task :
      EvalRunner → EvalTask → Ctx → W → Option (Option EvalResult × Option String × W)
  unfolding resolve_task_timeout resolve_cleanup_timeout failed_with named_result run_with_timeouts
      with_no_error
  run_task r tc ctx w = elim (resolve_task_timeout o.durations r tc) [
    | err e ↦ some (some (failed_with e (named_result tc)), none, w)
    | ok timeout ↦ elim (resolve_cleanup_timeout o.durations r tc) [
      | err e ↦ some (some (failed_with e (named_result tc)), none, w)
      | ok cleanup_timeout ↦ with_no_error (run_with_timeouts r tc ctx timeout cleanup_timeout w)
    ]
  ]

  -- `executeSingleRun`: an error without a result becomes a result; a nil result stays nil.
  unfoldable pub single_result : EvalTask → Option EvalResult → Option String → Option EvalResult
  unfolding failed_with named_result
  single_result tc (some result) e = some result
  single_result tc none (some e) = some (failed_with e (named_result tc))
  single_result tc none none = none

  unfoldable pub execute_single_run :
      EvalRunner → EvalTask → Ctx → W → Option (Option EvalResult × W)
  unfolding run_task single_result
  execute_single_run r tc ctx w = do
    answer ← run_task r tc ctx w
    some (single_result tc answer.0 answer.1, answer.2)

  -- The loop over the runs, from `runIdx` on: a nil result would be a nil pointer.
  unfoldable pub runs_loop :
      EvalRunner → EvalTask → Ctx → ℤ → ℕ → ℕ → List EvalResult → W → Option (List EvalResult × W)
  unfolding execute_single_run
  runs_loop r tc ctx runs zero index results w = some (results, w)
  runs_loop r tc ctx runs (suc n) index results w = do
    answer ← execute_single_run r tc ctx w
    result ← answer.0
    runs_loop r tc ctx runs n (index + 1)
        (results ++ record result { run_index = index; total_runs = runs } ∷ []) answer.1

  unfoldable pub execute_task : EvalRunner → EvalTask → Ctx → W → Option (List EvalResult × W)
  unfolding get_runs_for_task runs_loop
  execute_task r tc ctx w =
      let runs = get_runs_for_task r tc in runs_loop r tc ctx runs (pos_part runs) 0 [] w
