-- ===== src/Run/Single.antt =====
-- `runTask`, `setupTaskResources`, `executeTaskSteps`, `executeSingleRun` and `executeTask` of
-- pkg/eval/runner.go, over the world. A panic is `none`. The cancelling of a context that nothing uses
-- any more is left out.
use mcpchecker.Prelude.Int.{ℤ}
use mcpchecker.Proxy.{CallHistory}
use mcpchecker.Run.Execute.{
  Outside, ProgressEvent, details_of, note_agent, note_agent_error, note_verification,
}
use mcpchecker.Task.{AgentDetails, PhaseOutput, TaskRunner}
use mcpchecker.Tokens.Calls.{compute_call_history_tokens, compute_schema_tokens}
use mcpchecker.Agent.{ToolCallSummary}
use mcpchecker.Task.RunAgent.{run_agent}
use mcpchecker.Prelude.{
  ℕ, Bool, List, Option, String, [], concat, false, if◌then◌else◌, none, not, some, str_eq, true,
  ◌&&◌, ◌++◌, ◌>>=◌, ◌∷◌,
}
use mcpchecker.Task.Phases.{cleanup, setup, verify}
use mcpchecker.Tokens.{recalculate_aggregates, Estimate, merge_call_history}
use mcpchecker.Task.New.{new_task_runner}
use mcpchecker.Prelude.Result.{Result, err, ok}
use mcpchecker.Run.{zero_result, EvalTask, EvalResult}

-- `&EvalResult{…}` of a task.
unfoldable pub named_result : EvalTask → EvalResult
named_result tc = record zero_result {
  task_name = tc.spec.metadata.name;
  task_path = tc.path;
  difficulty = tc.spec.metadata.difficulty;
  parallel = tc.spec.metadata.parallel;
}

unfoldable pub failed_with : String → EvalResult → EvalResult
failed_with e result = record result { task_passed = false; task_error = e }

abbrev pub event : String → String → EvalResult → ProgressEvent
event t message result = record { event_type = t; message = message; task = result }

-- The estimate of an empty struct.
abbrev pub zero_estimate : Estimate
zero_estimate = record {
  input_tokens = 0;
  output_tokens = 0;
  total_tokens = 0;
  prompt_tokens = 0;
  message_tokens = 0;
  thinking_tokens = 0;
  tool_input_tokens = 0;
  tool_output_tokens = 0;
  mcp_schema_tokens = 0;
  prompt_get_input_tokens = 0;
  prompt_get_output_tokens = 0;
  resource_input_tokens = 0;
  resource_output_tokens = 0;
  error = "";
  source = "";
  actual = none;
  turns = [];
}

abbrev nonempty : String → List String
nonempty s = if str_eq s "" then [] else s ∷ []

-- `strings.Join(tokenErrors, "; ")`
unfoldable pub join_errors : List String → String
join_errors [] = ""
join_errors (e ∷ []) = e
join_errors (e ∷ f ∷ es) = concat (e ∷ "; " ∷ join_errors (f ∷ es) ∷ [])

abbrev list_of : Option String → List String
list_of none = []
list_of (some e) = e ∷ []

-- The estimate with the counts of the history and of the schemas.
unfoldable pub merge_estimate :
    Option Estimate → Option CallHistory → String → ℕ → Option String → Estimate
unfolding merge_call_history recalculate_aggregates join_errors
merge_estimate before history history_error schema_tokens schema_error =
    let e = elim before as (λ _. Estimate) [ some x ↦ x | none ↦ zero_estimate ] in
    let counted = record e {
      error = join_errors (nonempty e.error ++ (nonempty history_error ++ list_of schema_error));
      mcp_schema_tokens = schema_tokens;
    } in
    recalculate_aggregates (merge_call_history counted history) history

-- The agent's details point to the same estimate as the result, which is changed in place.
unfoldable pub share_details : Estimate → AgentDetails → AgentDetails
share_details e d = record d {
  token_estimate = elim d.token_estimate [ some x ↦ some e | none ↦ none ];
}

unfoldable pub share_estimate : Estimate → PhaseOutput → PhaseOutput
unfolding share_details
share_estimate e out = record out {
  agent_details = elim out.agent_details [ some d ↦ some (share_details e d) | none ↦ none ];
}

abbrev pub tool_calls_of : Option PhaseOutput → List ToolCallSummary
tool_calls_of out = elim (details_of out) [ some d ↦ d.tool_calls | none ↦ [] ]

module _ {Ctx Mgr W : Type 0} (o : Outside Ctx Mgr W) where
  -- The history and the token counts of the result.
  unfoldable pub note_tokens : Mgr → EvalResult → W → EvalResult
  unfolding compute_call_history_tokens compute_schema_tokens merge_estimate share_estimate
  note_tokens mgr result w =
      let (history, history_error) =
        compute_call_history_tokens o.tokenizer (some (o.get_all_call_history mgr w)) in
      let (schema_tokens, schema_error) =
        compute_schema_tokens o.tokenizer (o.get_mcp_servers mgr w) in
      let e =
        merge_estimate result.token_estimate history history_error schema_tokens schema_error in
      record result {
        call_history = history;
        token_estimate = some e;
        agent_output = elim result.agent_output [
          | some out ↦ some (share_estimate e out)
          | none ↦ none
        ];
      }

  -- `executeTaskSteps`, with the task's runner as the agent's run leaves it.
  unfoldable pub execute_task_steps :
      Ctx → TaskRunner Ctx W → Mgr → EvalResult → W → EvalResult × TaskRunner Ctx W × W
  unfolding run_agent note_agent_error note_agent verify note_verification
  execute_task_steps ctx runner mgr result w =
      let running =
        event "task_running" (concat ("Running agent for task: " ∷ result.task_name ∷ [])) result in
      let (out, error, runner1, w1) =
        run_agent o.templates (o.agent_runner mgr) runner ctx (o.report running w) in
      let noted = record result { agent_output = some out } in
      elim error [
        | some e ↦ (note_agent_error out.agent_details e noted, runner1, w1)
        | none ↦
            let done = note_agent out.agent_details noted in
            let verifying =
              event "task_verifying" (concat ("Verifying task: " ∷ result.task_name ∷ [])) done in
            let (verdict, verify_error, w2) = verify runner1 ctx (o.report verifying w1) in
            (note_verification verdict verify_error done, runner1, w2)
      ]

  -- The proxy's manager, started, or one without servers.
  unfoldable pub open_manager : Ctx → W → Result Mgr × W
  open_manager ctx w =
      if not (o.has_mcp_manager ctx)
      then (ok o.empty_server_manager, w)
      else let (m, w1) = o.new_server_manager ctx w in
        elim m [
          | err e ↦ (err (concat ("failed to create mcp proxy server manager: " ∷ e ∷ [])), w1)
          | ok mgr ↦
              let (error, w2) = o.start mgr ctx w1 in
              elim error [
                | some e ↦ (err (concat ("failed to start mcp proxy servers: " ∷ e ∷ [])), w2)
                | none ↦ (ok mgr, w2)
              ]
        ]

  -- The setup phase. If it fails, the manager is closed.
  unfoldable pub run_setup :
      Ctx
      → TaskRunner Ctx W
      → Mgr
      → EvalResult
      → W
      → EvalResult × Result (TaskRunner Ctx W × Mgr) × W
  unfolding setup
  run_setup ctx runner mgr result w =
      let (out, error, runner1, w1) = setup runner ctx w in
      let noted = record result { setup_output = some out } in
      elim error [
        | some e ↦ (noted, err (concat ("failed to setup task: " ∷ e ∷ [])), o.close mgr w1)
        | none ↦ (noted, ok (runner1, mgr), w1)
      ]

  -- What follows `NewTaskRunner`.
  unfoldable pub open_resources :
      Ctx
      → EvalTask
      → EvalResult
      → Result (TaskRunner Ctx W)
      → W
      → EvalResult × Result (TaskRunner Ctx W × Mgr) × W
  unfolding open_manager run_setup
  open_resources ctx tc result (err e) w = (
    result,
    err (
        concat
          ("failed to create task runner for task '" ∷ tc.spec.metadata.name ∷ "': " ∷ e ∷ [])),
    w,
  )
  open_resources ctx tc result (ok runner) w =
      let (opened, w1) = open_manager ctx w in
      elim opened [ err e ↦ (result, err e, w1) | ok mgr ↦ run_setup ctx runner mgr result w1 ]

  unfoldable pub setup_task_resources :
      Ctx → EvalTask → EvalResult → W → Option (EvalResult × Result (TaskRunner Ctx W × Mgr) × W)
  unfolding new_task_runner open_resources
  setup_task_resources ctx tc result w = do
    created ← new_task_runner (o.task_environment ctx) tc.spec w
    some (open_resources ctx tc result created.0 created.1)

  -- `hasTaskTimeout && taskCtx.Err() == context.DeadlineExceeded`
  unfoldable pub is_expired : Option ℤ → Ctx → W → Bool
  is_expired none ctx w = false
  is_expired (some d) ctx w = o.deadline_exceeded ctx w

  unfoldable pub timeout_text : Option ℤ → String
  timeout_text none = ""
  timeout_text (some d) = o.durations.show_duration d

  unfoldable pub timed_out_event : EvalTask → Option ℤ → EvalResult → ProgressEvent
  unfolding timeout_text
  timed_out_event tc timeout result =
      event "task_timeout"
        (concat ("Task " ∷ tc.spec.metadata.name ∷ " timed out after " ∷ timeout_text timeout ∷ []))
        result

  -- The result of a setup that failed.
  unfoldable pub setup_failed : EvalTask → Option ℤ → Ctx → String → EvalResult → W → EvalResult × W
  unfolding is_expired timeout_text timed_out_event failed_with
  setup_failed tc timeout ctx e result w =
      let late =
        record (failed_with
          (concat ("task exceeded timeout of " ∷ timeout_text timeout ∷ " during setup" ∷ []))
          result) { timed_out = true } in
      let failed = failed_with e result in
      let message = concat ("Task setup failed: " ∷ tc.spec.metadata.name ∷ []) in
      if is_expired timeout ctx w
      then (late, o.report (timed_out_event tc timeout late) w)
      else (failed, o.report (event "task_error" message failed) w)

  -- After the steps: a task that outlived its deadline has not passed.
  unfoldable pub check_timeout : EvalTask → Option ℤ → Ctx → EvalResult → W → EvalResult × W
  unfolding is_expired timeout_text timed_out_event failed_with
  check_timeout tc timeout ctx result w =
      let late =
        record (failed_with (concat ("task exceeded timeout of " ∷ timeout_text timeout ∷ []))
          result) { timed_out = true } in
      if is_expired timeout ctx w && not result.timed_out
      then (late, o.report (timed_out_event tc timeout late) w)
      else (result, w)

  unfoldable pub with_timeout_if : Option ℤ → Ctx → W → Ctx × W
  with_timeout_if none ctx w = (ctx, w)
  with_timeout_if (some d) ctx w = o.with_timeout ctx d w

  -- The deferred cleanup, in a context of its own.
  unfoldable pub clean_up :
      Ctx → Option ℤ → TaskRunner Ctx W → Mgr → EvalResult → W → EvalResult × W
  unfolding with_timeout_if cleanup
  clean_up ctx timeout runner mgr result w =
      let (cleanup_ctx, w1) = with_timeout_if timeout (o.without_cancel ctx) w in
      let (out, error, w2) = cleanup runner cleanup_ctx w1 in
      (record result { cleanup_output = some out }, o.close mgr w2)
