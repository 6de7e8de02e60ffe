-- ===== src/Run/Execute.antt =====
-- `executeTask` and what it calls, of pkg/eval/runner.go: one task from its setup to its cleanup. The
-- proxy's server manager, contexts and the agent are outside of it, and so are parameters.
use mcpchecker.Prelude.Int.{ℤ}
use mcpchecker.Tokens.Compute.{Tokenizer}
use mcpchecker.Task.RunAgent.{AgentRunner, Templates}
use mcpchecker.Task.New.{Environment}
use mcpchecker.Run.Timeouts.{Durations}
use mcpchecker.Prelude.Word.{int64_mod}
use mcpchecker.Tokens.{Usage, add}
use mcpchecker.Tokens.Calls.{Server}
use mcpchecker.Agent.{final_message_from_steps}
use mcpchecker.Assert.Composite.{Library}
use mcpchecker.Task.{AgentDetails, PhaseOutput, StepOutput}
use mcpchecker.Proxy.{CallHistory}
use mcpchecker.Prelude.Result.{Result}
use mcpchecker.Prelude.{
  ℕ, Bool, List, Option, String, [], concat, false, if◌then◌else◌, ltb, none, not, some, str_eq,
  true, ◌&&◌, ◌/◌, ◌||◌, ◌∷◌,
}
use mcpchecker.Run.{EvalResult}

pub record ProgressEvent : Type 0 where
  pub event_type : String
  pub message : String
  pub task : EvalResult

-- What the methods call: the environment of `NewTaskRunner`, the proxy's manager of a type `Mgr`,
-- contexts, the agent with the manager's servers, the callback, and the assertions' library.
pub record Outside (Ctx Mgr W : Type 0) : Type 0 where
  pub task_environment : Ctx → Environment Ctx W
  pub has_mcp_manager : Ctx → Bool
  pub new_server_manager : Ctx → W → Result Mgr × W
  pub start : Mgr → Ctx → W → Option String × W
  pub close : Mgr → W → W
  pub empty_server_manager : Mgr
  pub get_all_call_history : Mgr → W → CallHistory
  pub get_mcp_servers : Mgr → W → List Server
  pub with_timeout : Ctx → ℤ → W → Ctx × W
  pub without_cancel : Ctx → Ctx
  pub deadline_exceeded : Ctx → W → Bool
  pub agent_runner : Mgr → AgentRunner Ctx W
  pub templates : Templates
  pub report : ProgressEvent → W → W
  pub durations : Durations
  pub tokenizer : Tokenizer
  pub library : Library

abbrev pub details_of : Option PhaseOutput → Option AgentDetails
details_of none = none
details_of (some out) = out.agent_details

-- `TaskOutput` and `TokenEstimate` of the agent's phase.
unfoldable pub note_output : AgentDetails → EvalResult → EvalResult
note_output d result = record result { task_output = final_message_from_steps d.output_steps }

unfoldable pub note_agent : Option AgentDetails → EvalResult → EvalResult
unfolding note_output
note_agent none result = result
note_agent (some d) result = record (note_output d result) { token_estimate = d.token_estimate }

-- The error of an agent that could not run.
unfoldable pub note_agent_error : Option AgentDetails → String → EvalResult → EvalResult
unfolding note_output
note_agent_error d e result =
    let failed = record result {
      task_passed = false;
      task_error = e;
      agent_execution_error = true;
    } in
    elim d [ none ↦ failed | some x ↦ note_output x failed ]

-- The loop over the verification's steps, over `judgeUsage`.
unfoldable pub judge_usage_loop : List (Option StepOutput) → Usage → Usage
judge_usage_loop [] usage = usage
judge_usage_loop (none ∷ steps) usage = judge_usage_loop steps usage
judge_usage_loop (some s ∷ steps) usage =
    judge_usage_loop steps (if str_eq s.step_type "llmJudge" then add usage s.usage else usage)

abbrev pub zero_usage : Usage
zero_usage = record {
  input_tokens = 0;
  output_tokens = 0;
  total_tokens = 0;
  thought_tokens = none;
  cached_read_tokens = none;
  cached_write_tokens = none;
}

-- `n > 0` of an `int64`
abbrev pub is_positive64 : ℕ → Bool
is_positive64 n = ltb 0 n && ltb n (int64_mod / 2)

unfoldable pub note_judge_usage : PhaseOutput → EvalResult → EvalResult
unfolding judge_usage_loop
note_judge_usage out result =
    let usage = judge_usage_loop out.steps zero_usage in
    if is_positive64 usage.input_tokens || is_positive64 usage.output_tokens
    then record result { judge_token_usage = some usage }
    else result

-- The verdict of the verification.
unfoldable pub note_verdict : Option String → PhaseOutput → EvalResult → EvalResult
note_verdict (some e) out result = record result {
  task_passed = false;
  task_error = concat ("verification failed: " ∷ e ∷ []);
}
note_verdict none out result =
    if not out.success
    then record result { task_passed = false; task_error = "one or more verification steps failed" }
    else record result { task_passed = true }

-- `extractJudgeResults`: the message of the first step of the judge.
unfoldable pub judge_reason : List (Option StepOutput) → String → String
judge_reason [] before = before
judge_reason (none ∷ steps) before = judge_reason steps before
judge_reason (some s ∷ steps) before =
    if str_eq s.step_type "llmJudge" then s.message else judge_reason steps before

unfoldable pub extract_judge_results : PhaseOutput → EvalResult → EvalResult
unfolding judge_reason
extract_judge_results out result = record result {
  task_judge_reason = judge_reason out.steps result.task_judge_reason;
}

-- `result.VerifyOutput = verifyOutput` and what follows it.
unfoldable pub note_verification : PhaseOutput → Option String → EvalResult → EvalResult
unfolding note_judge_usage note_verdict extract_judge_results
note_verification out error result =
    extract_judge_results out
      (note_verdict error out (note_judge_usage out (record result { verify_output = some out })))
