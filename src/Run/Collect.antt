-- ===== src/Run/Collect.antt =====
-- `collectTaskConfigs` of pkg/eval/runner.go: the tasks that the task sets select, each file once, with
-- the assertions of all its sets. The file system and the pattern are parameters.
use mcpchecker.Run.Timeouts.{answer}
use mcpchecker.Assert.{TaskAssertions}
use mcpchecker.Task.{TaskConfig}
use mcpchecker.Prelude.Assoc.{insert, lookup}
use mcpchecker.Prelude.Result.{Result, err, ok}
use mcpchecker.Label.{TaskSet, matches_label_selector}
use mcpchecker.Prelude.{
  ℕ, Bool, List, Option, String, [], concat, false, if◌then◌else◌, length, none, not, some, str_eq,
  suc, true, zero, ◌&&◌, ◌++◌, ◌>>=◌, ◌∷◌,
}
use mcpchecker.Run.{EvalTask}

-- What `task.FromFile` makes of a file.
pub data Loaded : Type 0 where
  task_of : TaskConfig → Loaded
  wrong_kind : Loaded
  load_error : String → Loaded

-- `filepath.Glob`, `task.FromFile`, `filepath.Abs`, `filepath.EvalSymlinks` and `filepath.Clean`, and
-- the regular expression's `MatchString`; a result that fails is `none`.
pub record Files : Type 0 where
  pub glob : String → Result (List String)
  pub from_file : String → Loaded
  pub abs : String → Option String
  pub eval_symlinks : String → Option String
  pub clean : String → String
  pub match_string : String → Bool

-- `taskConfigs` and `seen`
pub record Collected : Type 0 where
  pub task_configs : List EvalTask
  pub seen : List (String × ℕ)

-- A path that cannot be made absolute, or whose links cannot be followed, stays as it is.
unfoldable pub canonical_path : Files → String → String
canonical_path f path =
    let absolute = elim (f.abs path) as (λ _. String) [ some p ↦ p | none ↦ path ] in
    elim (f.eval_symlinks absolute) [ some p ↦ p | none ↦ absolute ]

-- `taskConfigs[idx].assertions = append(…)`; an index that is out of range would be a panic.
unfoldable pub append_assertions :
    ℕ → Option TaskAssertions → List EvalTask → Option (List EvalTask)
append_assertions i none tasks = some tasks
append_assertions i (some a) [] = none
append_assertions zero (some a) (tc ∷ tasks) =
    some (record tc { assertions = tc.assertions ++ some a ∷ [] } ∷ tasks)
append_assertions (suc i) (some a) (tc ∷ tasks) = do
  rest ← append_assertions i (some a) tasks
  some (tc ∷ rest)

abbrev pub given : Option TaskAssertions → List (Option TaskAssertions)
given none = []
given (some a) = some a ∷ []

-- A task that is selected, under its canonical path.
unfoldable pub select_task :
    String → String → TaskConfig → Option TaskAssertions → Collected → Option Collected
unfolding append_assertions
select_task canonical display spec assertions c = elim (lookup canonical c.seen) [
  | some index ↦ do
    tasks ← append_assertions index assertions c.task_configs
    some (record c { task_configs = tasks })
  | none ↦ some (record {
    task_configs =
        c.task_configs
        ++ record { path = display; spec = spec; assertions = given assertions } ∷ [];
    seen = insert canonical (length c.task_configs) c.seen;
  })
]

-- Whether the pattern and the set's label selector match.
unfoldable pub is_selected : Files → TaskSet → TaskConfig → Bool
is_selected f ts spec =
    f.match_string spec.metadata.name
    && matches_label_selector spec.metadata.labels ts.label_selector

-- The loop over the paths of a set. A panic is `none`.
unfoldable pub paths_loop : Files → TaskSet → List String → Collected → Option (Result Collected)
unfolding select_task is_selected canonical_path
paths_loop f ts [] c = some (ok c)
paths_loop f ts (path ∷ paths) c = elim (f.from_file path) [
  | wrong_kind ↦ paths_loop f ts paths c
  | load_error e ↦ some (err (concat ("failed to load task at path " ∷ path ∷ ": " ∷ e ∷ [])))
  | task_of spec ↦ elim (is_selected f ts spec) [
    | false ↦ paths_loop f ts paths c
    | true ↦ do
      next ← select_task (canonical_path f path) (f.clean path) spec ts.assertions c
      paths_loop f ts paths next
  ]
]

-- The paths of a set.
unfoldable pub set_paths : Files → TaskSet → Result (List String)
set_paths f ts =
    if not (str_eq ts.glob "")
    then elim (f.glob ts.glob) [
      | ok paths ↦ ok paths
      | err e ↦ err (concat ("failed to glob " ∷ ts.glob ∷ ": " ∷ e ∷ []))
    ]
    else if not (str_eq ts.path "")
    then ok (ts.path ∷ [])
    else ok []

unfoldable pub sets_loop : Files → List TaskSet → Collected → Option (Result Collected)
unfolding set_paths paths_loop
sets_loop f [] c = some (ok c)
sets_loop f (ts ∷ sets) c = elim (set_paths f ts) [
  | err e ↦ some (err e)
  | ok paths ↦ do
    answer ← paths_loop f ts paths c
    elim answer [ err e ↦ some (err e) | ok next ↦ sets_loop f sets next ]
]

abbrev pub no_tasks : Collected
no_tasks = record { task_configs = []; seen = [] }

unfoldable pub collect_task_configs : Files → List TaskSet → Option (Result (List EvalTask))
unfolding sets_loop
collect_task_configs f sets = do
  answer ← sets_loop f sets no_tasks
  elim answer [ err e ↦ some (err e) | ok c ↦ some (ok c.task_configs) ]
