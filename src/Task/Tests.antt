-- ===== src/Task/Tests.antt =====
-- Phases of small tasks, over a world that counts the calls that reach it.
use mcpchecker.Task.Trace.{given_input}
use mcpchecker.Assert.{succeeded}
use mcpchecker.Task.Verdict.{IsReport, phases-IsReport}
use mcpchecker.Prelude.Assoc.{insert, lookup}
use mcpchecker.Task.Separate.{Separate, check_requirements-Separate}
use mcpchecker.Task.Outputs.{last_outputs, setup_outputs_last}
use mcpchecker.Task.Phases.{cleanup, copy_outputs, setup, verify}
use mcpchecker.Label.Parse.{split_two}
use mcpchecker.Task.Requirements.{Aliases, Managers, check_requirements}
use mcpchecker.Prelude.{
  get_elem?, ℕ, Bool, List, [], concat, false, length, none, refl, show_ℕ, some, str_eq, true, ◌+◌,
  ◌∷◌, ◌≡◌,
}
use mcpchecker.Prelude.Result.{ok, err}
use mcpchecker.Task.{StepOutputs, Requirement, StepRunner, Strings, TaskRunner}

abbrev answers : Bool → Strings → StepRunner Unit ℕ
answers succeeded outputs ctx input w = (
  some (record {
    step_type = "script";
    success = succeeded;
    message = "";
    outputs = outputs;
    error = "";
    usage = none;
  }),
  none,
  w + 1,
)

abbrev breaks : StepRunner Unit ℕ
breaks ctx input w = (none, some "no shell", w + 1)

abbrev runner : List (StepRunner Unit ℕ) → TaskRunner Unit ℕ
runner steps = record {
  setup = steps;
  verify = answers true [] ∷ answers false [] ∷ [];
  cleanup = answers true [] ∷ breaks ∷ answers true [] ∷ [];
  prompt = "Fix the pod.";
  output = "";
  base_dir = "/task";
  setup_outputs = [];
}

abbrev two_scripts : TaskRunner Unit ℕ
two_scripts =
    runner
      (answers true (("ns", "a") ∷ []) ∷ answers true (("ns", "b") ∷ []) ∷ answers false [] ∷ [])

cleanup_stops :
    ((cleanup two_scripts tt 0).1 ≡ some "cleanup[1] failed: no shell")
    × (length (cleanup two_scripts tt 0).0.steps ≡ 2)
unfolding cleanup concat show_ℕ
cleanup_stops = (refl, refl)

verify_fails : ((verify two_scripts tt 0).0.success ≡ false) × ((verify two_scripts tt 0).1 ≡ none)
unfolding verify
verify_fails = (refl, refl)

phases-IsReport_example :
    let s = setup two_scripts tt 0 in
    let c = cleanup two_scripts tt 0 in
    let v = verify two_scripts tt 0 in
    IsReport "setup" "/task" none tt two_scripts.setup [] 0 s.0 s.1 s.3
    × IsReport "cleanup" "/task" none tt two_scripts.cleanup [] 0 c.0 c.1 c.2
    × IsReport "verify" "/task"
        (some (record { prompt = "Fix the pod."; output = "" }))
        tt
        two_scripts.verify
        []
        0
        v.0
        v.1
        v.2
unfolding copy_outputs
phases-IsReport_example = phases-IsReport two_scripts tt 0

two_scripts_pass : (setup two_scripts tt 0).1 ≡ none
unfolding setup
two_scripts_pass = refl

-- A step whose message is the number of the types of outputs that it gets.
abbrev counts : StepRunner Unit ℕ
counts ctx input w = (
  some (record {
    step_type = "script";
    success = true;
    message = show_ℕ (length input.step_outputs);
    outputs = [];
    error = "";
    usage = none;
  }),
  none,
  w,
)

abbrev counted : TaskRunner Unit ℕ
counted = record two_scripts { cleanup = counts ∷ [] }

counted_pass : (setup counted tt 0).1 ≡ none
unfolding setup
counted_pass = refl

setup_outputs_last_example :
    let after = (setup counted tt 0).2 in
    let expected = last_outputs "script" (setup counted tt 0).0.steps none in
    (lookup "script" after.setup_outputs ≡ expected)
    × ((m : StepOutputs) × (lookup "script" m ≡ expected)
        × (get_elem? (cleanup after tt 7).0.steps 0
            ≡ some (counts tt (given_input "/task" none m) 7).0))
setup_outputs_last_example =
    setup_outputs_last counted tt 0 "script" counts [] tt 7 refl refl counted_pass

last_script : last_outputs "script" (setup two_scripts tt 0).0.steps none ≡ some (("ns", "b") ∷ [])
unfolding setup
last_script = refl

abbrev managers : Managers
managers = record {
  has_extension = λ name. str_eq name "kube";
  mcp_server = some (λ name. str_eq name "kubernetes");
  quote = λ s. s;
}

abbrev requirements : List Requirement
requirements =
    record { extension = some "kube"; mcp_server = none; alias = none }
    ∷ record { extension = none; mcp_server = some "kubernetes"; alias = some "k8s" }
    ∷ []

abbrev aliases : Aliases
aliases = record { extensions = ("kube", "kube") ∷ []; mcp_servers = ("k8s", "kubernetes") ∷ [] }

requirements_pass : check_requirements managers requirements ≡ ok aliases
unfolding check_requirements lookup insert split_two
requirements_pass = refl

check_requirements-Separate_example : Separate managers aliases
check_requirements-Separate_example =
    check_requirements-Separate managers requirements aliases requirements_pass

same_alias_fails :
    check_requirements managers (
      record { extension = some "kube"; mcp_server = none; alias = some "k8s" }
      ∷ record { extension = none; mcp_server = some "kubernetes"; alias = some "k8s" }
      ∷ [])
    ≡ err "duplicate alias k8s in requirements"
unfolding check_requirements lookup insert split_two concat
same_alias_fails = refl
