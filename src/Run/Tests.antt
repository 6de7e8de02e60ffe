-- ===== src/Run/Tests.antt =====
-- Small evaluations: two tasks, of which one may run in parallel, over a world that counts calls.
use mcpchecker.Task.{StepConfig, TaskConfig}
use mcpchecker.Run.Execute.{Outside}
use mcpchecker.Task.New.{Environment}
use mcpchecker.Label.{TaskSet, matches_label_selector}
use mcpchecker.Proxy.{CallHistory}
use mcpchecker.Run.Entries.{collect_task_configs_once, entry_of}
use mcpchecker.Assert.Composite.{Library}
use mcpchecker.Run.Single.{zero_estimate}
use mcpchecker.Run.Collect.{task_of, wrong_kind, Files, collect_task_configs}
use mcpchecker.Run.Groups.{
  IsGroup, all_tasks, group_tasks_by_parallel_support, IsGroup-tasks_order, of_kind,
}
use mcpchecker.Run.RunTask.{run_task}
use mcpchecker.Run.Collected.{set_visits}
use mcpchecker.Prelude.Result.{err, ok}
use mcpchecker.Run.Timeouts.{
  Durations, answer, cleanup_sources, first_source, get_cleanup_timeout, resolve_cleanup_timeout,
  resolve_task_timeout, resolve_timeout_first, task_sources,
}
use mcpchecker.Run.Workers.{
  acquire, start, later, Finished, Move, Pool, Reach, run_task_group_bounded, run_task_group_ends,
  start_pool, work,
}
use mcpchecker.Run.Selected.{tasks_of, Entries, Visit}
use mcpchecker.Prelude.Int.{pos}
use mcpchecker.Task.RunAgent.{AgentResult}
use mcpchecker.Prelude.{
  ℕ, All, Bool, List, Option, String, [], arith, concat, false, if◌then◌else◌, length, none, refl,
  some, str_eq, suc, true, ◌++◌, ◌+◌, ◌∷◌, ◌≡◌, ◌≤◌, ◌⊎◌,
}
use mcpchecker.Prelude.Assoc.{DistinctKeys, insert, lookup}
use mcpchecker.Run.{EvalResult, EvalRunner, zero_result, EvalTask}

abbrev spec_of : String → Bool → TaskConfig
spec_of name parallel = record {
  metadata = record {
    name = name;
    difficulty = "easy";
    labels = ("kind", "pods") ∷ [];
    parallel = parallel;
    runs = pos 2;
  };
  spec = record {
    requires = [];
    limits = some (record { timeout = "5m"; cleanup_timeout = "" });
    setup = [];
    cleanup = [];
    verify = [];
    prompt = some (record { inline_text = "Fix it."; file = "" });
  };
  base_path = "/tasks";
}

abbrev task_named : String → Bool → EvalTask
task_named name parallel = record {
  path = name;
  spec = spec_of name parallel;
  assertions = none ∷ [];
}

abbrev eval_runner : EvalRunner
eval_runner = record {
  spec = record {
    type_meta = record { api_version = ""; kind = "Eval" };
    metadata = record { name = "" };
    config = record {
      agent = none;
      sources = none;
      mcp_config_file = "";
      llm_judge = none;
      skills = none;
      default_task_limits = some (record { timeout = "10m"; cleanup_timeout = "1m" });
      task_sets = [];
    };
    base_path = "";
  };
  parallel_workers = pos 2;
  runs = pos 1;
  runs_explicitly_set = false;
  skill_tool_name = "";
  default_task_timeout = "7m";
  task_timeout = "";
  default_cleanup_timeout = "";
  cleanup_timeout = "";
}

-- Durations that are a number of minutes.
abbrev durations : Durations
durations = record {
  parse_duration =
      λ s. if str_eq s "5m" then ok (pos 5) else if str_eq s "1m" then ok (pos 1) else err "bad";
  show_duration = λ d. "some minutes";
  quote = λ s. s;
}

resolve_timeout_first_example :
    (answer (resolve_task_timeout durations eval_runner (task_named "a" true))
      ≡ first_source durations (task_sources eval_runner (task_named "a" true)))
    × (answer (resolve_cleanup_timeout durations eval_runner (task_named "a" true))
        ≡ first_source durations (cleanup_sources eval_runner (task_named "a" true)))
resolve_timeout_first_example = resolve_timeout_first durations eval_runner (task_named "a" true)

timeout_runs :
    (first_source durations (task_sources eval_runner (task_named "a" true)) ≡ some (some (pos 5)))
    × (first_source durations (cleanup_sources eval_runner (task_named "a" true))
        ≡ some (some (pos 1)))
timeout_runs = (refl, refl)

-- A cleanup timeout that is not positive: the message names the other field.
cleanup_message :
    get_cleanup_timeout
      (record durations { parse_duration = λ s. ok (pos 0) })
      (some (record { timeout = "5m"; cleanup_timeout = "0s" }))
    ≡ err "invalid timeout: timeout duration must be > 0, got 5m"
unfolding get_cleanup_timeout concat
cleanup_message = refl

abbrev tasks : List EvalTask
tasks = task_named "a" true ∷ task_named "b" false ∷ task_named "c" true ∷ []

IsGroup-tasks_order_example :
    (all_tasks (group_tasks_by_parallel_support tasks) ≡ of_kind false tasks ++ of_kind true tasks)
    × All IsGroup (group_tasks_by_parallel_support tasks)
IsGroup-tasks_order_example = IsGroup-tasks_order tasks

abbrev OneResult : EvalTask → List EvalResult → Type 0
OneResult tc results = length results ≡ 1

-- One worker has taken the first task of two.
abbrev busy : Pool
busy = record (start_pool tasks) {
  waiting = task_named "b" false ∷ task_named "c" true ∷ [];
  running = task_named "a" true ∷ [];
}

busy-Reach : Reach 1 OneResult tasks busy
unfolding start_pool
busy-Reach = later start (
    acquire (task_named "a" true) [] (task_named "b" false ∷ task_named "c" true ∷ []) refl
      (omega arith))

run_task_group_bounded_example : length busy.running + busy.holding ≤ 1
run_task_group_bounded_example = run_task_group_bounded 1 OneResult tasks busy-Reach

run_task_group_ends_example :
    (Finished OneResult tasks busy ⊎ ((t : Pool) × Move 1 OneResult busy t))
    × ((t : Pool) → Move 1 OneResult busy t → work busy ≡ suc (work t))
run_task_group_ends_example =
    run_task_group_ends 1 OneResult tasks busy (omega arith) (λ tc. (zero_result ∷ [], refl))
      busy-Reach

abbrev estimate_of_answer : AgentResult
estimate_of_answer = record {
  output = record { step_type = "message"; content = "Done."; tool_call = none } ∷ [];
  tool_calls = [];
  token_estimate = zero_estimate;
}

abbrev library : Library
library = record { match_string = λ p s. none; sort_calls = λ cs. cs; marshal_json = λ p. none }

abbrev nothing_parses : Environment Unit ℕ
nothing_parses = record {
  managers = some (record { has_extension = λ n. false; mcp_server = none; quote = λ s. s });
  default_registry = record { parsers = []; prefix_parsers = [] };
  extension_parser = λ alias suffix raw w. (err "no extension", w);
  mcp_server_parser = λ alias suffix raw w. (err "no server", w);
  read_file = λ path w. (err "no file", w);
}

-- One recorded call.
abbrev one_call : CallHistory
one_call = record {
  tool_calls =
      record {
        call = record { server_name = "kubernetes"; timestamp = 3; success = true; error = "" };
        tool_name = "pods_list";
        request = some (record { name = "pods_list"; arguments = [] });
        result = none;
        tokens = none;
      }
      ∷ [];
  resource_reads = [];
  prompt_gets = [];
}

abbrev outside : Outside Unit Unit ℕ
outside = record {
  task_environment = λ ctx. nothing_parses;
  has_mcp_manager = λ ctx. false;
  new_server_manager = λ ctx w. (ok tt, w);
  start = λ mgr ctx w. (none, w);
  close = λ mgr w. w;
  empty_server_manager = tt;
  get_all_call_history = λ mgr w. one_call;
  get_mcp_servers = λ mgr w. [];
  with_timeout = λ ctx d w. (ctx, w);
  without_cancel = λ ctx. ctx;
  deadline_exceeded = λ ctx w. false;
  agent_runner = λ mgr ctx prompt w. (ok estimate_of_answer, w + 1);
  templates = λ prompt outputs. none;
  report = λ e w. w + 1;
  durations = durations;
  tokenizer = record { count_tokens = λ s. some 1; count_json_tokens = λ p. some 1 };
  library = library;
}

-- A script that counts in the world, and a task with one as its verification.
abbrev scripts : Environment Unit ℕ
scripts = record nothing_parses {
  default_registry = record {
    parsers = ("script", λ raw w. (ok (λ ctx input w1. (none, none, w1 + 1)), w)) ∷ [];
    prefix_parsers = [];
  };
}

abbrev with_verify : List (Option StepConfig) → EvalTask
with_verify steps = record {
  path = "a";
  spec = record (spec_of "a" true) { spec = record (spec_of "a" true).spec { verify = steps } };
  assertions = none ∷ [];
}

abbrev scripted : EvalTask
scripted = with_verify (some (record { id = ""; config = ("script", []) ∷ [] }) ∷ [])

abbrev outside_scripts : Outside Unit Unit ℕ
outside_scripts = record outside { task_environment = λ ctx. scripts }

-- A null among the steps of a task file: the id of a nil step is read before it is parsed.
nil_step_panics : run_task outside_scripts eval_runner (with_verify (none ∷ [])) tt 0 ≡ none
unfolding run_task
nil_step_panics = refl

-- Two sets that select the same file by different paths.
abbrev files : Files
files = record {
  glob = λ pattern. ok ("./a.yaml" ∷ "eval.yaml" ∷ []);
  from_file = λ path. if str_eq path "eval.yaml" then wrong_kind else task_of (spec_of "a" true);
  abs = λ path. none;
  eval_symlinks = λ path. some "/tasks/a.yaml";
  clean = λ path. path;
  match_string = λ name. true;
}

abbrev task_set : String → String → TaskSet
task_set glob path = record {
  glob = glob;
  path = path;
  source = "";
  label_selector = ("kind", "pods") ∷ [];
  assertions = none;
}

abbrev collected_tasks : List EvalTask
collected_tasks = record { path = "./a.yaml"; spec = spec_of "a" true; assertions = [] } ∷ []

collect_runs :
    collect_task_configs files (task_set "*.yaml" "" ∷ task_set "" "a.yaml" ∷ [])
    ≡ some (ok collected_tasks)
unfolding collect_task_configs matches_label_selector lookup insert
collect_runs = refl

collect_task_configs_once_example :
    (vs : List Visit) × (m : Entries) × (set_visits files
        (task_set "*.yaml" "" ∷ task_set "" "a.yaml" ∷ [])
      ≡ ok vs)
    × (collected_tasks ≡ tasks_of m)
    × DistinctKeys m
    × ((k : String) → lookup k m ≡ entry_of k vs none)
collect_task_configs_once_example =
    collect_task_configs_once files (task_set "*.yaml" "" ∷ task_set "" "a.yaml" ∷ [])
      collected_tasks collect_runs
