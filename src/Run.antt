-- ===== src/Run.antt =====
-- pkg/eval/runner.go: how the tasks of an evaluation are chosen, and how each is run.
pub mod Timeouts
pub mod Groups
pub mod Workers
pub mod Execute
pub mod Single
pub mod RunTask
pub mod Outcome
pub mod Stepped
pub mod Total
pub mod Runs
pub mod Collect
pub mod Selected
pub mod Collected
pub mod Entries
mod Tests
use mcpchecker.Config.{EvalSpec}
use mcpchecker.Proxy.{CallHistory}
use mcpchecker.Tokens.{Estimate, Usage}
use mcpchecker.Prelude.Result.{Result, err, ok}
use mcpchecker.Prelude.Int.{ltb_ℤ, pos, ℤ}
use mcpchecker.Assert.Result.{CompositeAssertionResult}
use mcpchecker.Task.{Limits, PhaseOutput, TaskConfig}
use mcpchecker.Prelude.{ℕ, Bool, List, Option, String, [], false, if◌then◌else◌, none, some, ◌∷◌}
use mcpchecker.Assert.{TaskAssertions}

pub record EvalResult : Type 0 where
  pub task_name : String
  pub task_path : String
  pub task_passed : Bool
  pub task_output : String
  pub task_error : String
  pub timed_out : Bool
  pub task_judge_reason : String
  pub task_judge_error : String
  pub agent_execution_error : Bool
  pub difficulty : String
  pub parallel : Bool
  pub run_index : ℕ
  pub total_runs : ℤ
  pub assertion_results : Option CompositeAssertionResult
  pub all_assertions_passed : Bool
  pub call_history : Option CallHistory
  pub token_estimate : Option Estimate
  pub judge_token_usage : Option Usage
  pub setup_output : Option PhaseOutput
  pub agent_output : Option PhaseOutput
  pub verify_output : Option PhaseOutput
  pub cleanup_output : Option PhaseOutput

-- `EvalResult{}`
abbrev pub zero_result : EvalResult
zero_result = record {
  task_name = "";
  task_path = "";
  task_passed = false;
  task_output = "";
  task_error = "";
  timed_out = false;
  task_judge_reason = "";
  task_judge_error = "";
  agent_execution_error = false;
  difficulty = "";
  parallel = false;
  run_index = 0;
  total_runs = pos 0;
  assertion_results = none;
  all_assertions_passed = false;
  call_history = none;
  token_estimate = none;
  judge_token_usage = none;
  setup_output = none;
  agent_output = none;
  verify_output = none;
  cleanup_output = none;
}

pub record RunnerOptions : Type 0 where
  pub parallel_workers : ℤ
  pub runs : ℤ
  pub runs_explicitly_set : Bool
  pub default_task_timeout : String
  pub task_timeout : String
  pub default_cleanup_timeout : String
  pub cleanup_timeout : String

pub record EvalRunner : Type 0 where
  pub spec : EvalSpec
  pub parallel_workers : ℤ
  pub runs : ℤ
  pub runs_explicitly_set : Bool
  pub skill_tool_name : String
  pub default_task_timeout : String
  pub task_timeout : String
  pub default_cleanup_timeout : String
  pub cleanup_timeout : String

-- `taskConfig`: a task with the assertions of the task sets that it is of.
pub record EvalTask : Type 0 where
  pub path : String
  pub spec : TaskConfig
  pub assertions : List (Option TaskAssertions)

-- `if n > 0 { m = n }`
unfoldable pub positive_or : ℤ → ℤ → ℤ
positive_or n m = if ltb_ℤ (pos 0) n then n else m

-- `NewRunner`; only the first of its options counts.
unfoldable pub new_runner : Option EvalSpec → List RunnerOptions → Result EvalRunner
unfolding positive_or
new_runner none opts = err "eval spec cannot be nil"
new_runner (some spec) [] = ok (record {
  spec = spec;
  parallel_workers = pos 1;
  runs = pos 1;
  runs_explicitly_set = false;
  skill_tool_name = "";
  default_task_timeout = "";
  task_timeout = "";
  default_cleanup_timeout = "";
  cleanup_timeout = "";
})
new_runner (some spec) (o ∷ opts) = ok (record {
  spec = spec;
  parallel_workers = positive_or o.parallel_workers (pos 1);
  runs = positive_or o.runs (pos 1);
  runs_explicitly_set = o.runs_explicitly_set;
  skill_tool_name = "";
  default_task_timeout = o.default_task_timeout;
  task_timeout = o.task_timeout;
  default_cleanup_timeout = o.default_cleanup_timeout;
  cleanup_timeout = o.cleanup_timeout;
})

-- `getRunsForTask`
unfoldable pub get_runs_for_task : EvalRunner → EvalTask → ℤ
get_runs_for_task r tc =
    if r.runs_explicitly_set then r.runs else positive_or tc.spec.metadata.runs (pos 1)
