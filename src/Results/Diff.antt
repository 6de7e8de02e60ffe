-- ===== src/Results/Diff.antt =====
-- `calculateDiff` of pkg/cli/diff.go: which tasks changed between two runs.
pub mod Lookup
pub mod Steps
pub mod Names
use mcpchecker.Run.{EvalResult}
use mcpchecker.Prelude.Assoc.{insert, lookup}
use mcpchecker.Prelude.{
  ℕ, Bool, List, Option, String, [], false, if◌then◌else◌, none, not, some, str_eq, true, ◌&&◌,
  ◌++◌, ◌||◌, ◌∷◌,
}
use mcpchecker.Results.{
  Stats, calculate_stats, task_passed_assertions, task_total_assertions, failure_reason,
}

pub record TaskDiff : Type 0 where
  pub task_name : String
  pub base_passed : Bool
  pub head_passed : Bool
  pub base_assertions : ℕ
  pub head_assertions : ℕ
  pub base_assertion_total : ℕ
  pub head_assertion_total : ℕ
  pub failure_reason : String

pub record DiffResult (Float : Type 0) : Type 0 where
  pub base_stats : Stats Float
  pub head_stats : Stats Float
  pub regressions : List TaskDiff
  pub improvements : List TaskDiff
  pub new : List TaskDiff
  pub removed : List TaskDiff
  pub token_data_incomplete : Bool

unfoldable pub has_token_errors : List EvalResult → Bool
has_token_errors [] = false
has_token_errors (r ∷ rs) =
    let rest = has_token_errors rs in
    elim r.token_estimate [ none ↦ rest | some e ↦ if not (str_eq e.error "") then true else rest ]

-- `baseMap` and `currentMap`: the last result of each name.
by_name_loop : List EvalResult → List (String × EvalResult) → List (String × EvalResult)
by_name_loop [] m = m
by_name_loop (r ∷ rs) m = by_name_loop rs (insert r.task_name r m)

unfoldable pub by_name : List EvalResult → List (String × EvalResult)
unfolding by_name_loop
by_name rs = by_name_loop rs []

pub passed : EvalResult → Bool
passed r = r.task_passed && r.all_assertions_passed

-- The diffs of a task that is in one run only, and in both.
new_task : EvalResult → TaskDiff
unfolding passed
new_task current = record {
  task_name = current.task_name;
  base_passed = false;
  head_passed = passed current;
  base_assertions = 0;
  head_assertions = task_passed_assertions current;
  base_assertion_total = 0;
  head_assertion_total = task_total_assertions current;
  failure_reason = "";
}

removed_task : EvalResult → TaskDiff
unfolding passed
removed_task base = record {
  task_name = base.task_name;
  base_passed = passed base;
  head_passed = false;
  base_assertions = task_passed_assertions base;
  head_assertions = 0;
  base_assertion_total = task_total_assertions base;
  head_assertion_total = 0;
  failure_reason = "";
}

task_diff : EvalResult → EvalResult → TaskDiff
unfolding passed
task_diff base current = record {
  task_name = current.task_name;
  base_passed = passed base;
  head_passed = passed current;
  base_assertions = task_passed_assertions base;
  head_assertions = task_passed_assertions current;
  base_assertion_total = task_total_assertions base;
  head_assertion_total = task_total_assertions current;
  failure_reason = failure_reason current;
}

module _ {Float : Type 0} where
  -- A task that is in both runs.
  compare_task : EvalResult → EvalResult → DiffResult Float → DiffResult Float
  unfolding task_diff
  compare_task base current diff =
      if passed base && not (passed current)
      then record diff { regressions = diff.regressions ++ task_diff base current ∷ [] }
      else if not (passed base) && passed current
      then record diff { improvements = diff.improvements ++ task_diff base current ∷ [] }
      else diff

  pub compare_current : Option EvalResult → EvalResult → DiffResult Float → DiffResult Float
  unfolding compare_task new_task
  compare_current none current diff = record diff { new = diff.new ++ new_task current ∷ [] }
  compare_current (some base) current diff = compare_task base current diff

  -- The loop over the current results.
  current_loop : List (String × EvalResult) → List EvalResult → DiffResult Float → DiffResult Float
  unfolding compare_current
  current_loop base_map [] diff = diff
  current_loop base_map (c ∷ cs) diff =
      current_loop base_map cs (compare_current (lookup c.task_name base_map) c diff)

  pub remove_base : Option EvalResult → EvalResult → DiffResult Float → DiffResult Float
  unfolding removed_task
  remove_base (some current) base diff = diff
  remove_base none base diff = record diff { removed = diff.removed ++ removed_task base ∷ [] }

  -- The loop over the base results.
  base_loop : List (String × EvalResult) → List EvalResult → DiffResult Float → DiffResult Float
  unfolding remove_base
  base_loop current_map [] diff = diff
  base_loop current_map (b ∷ bs) diff =
      base_loop current_map bs (remove_base (lookup b.task_name current_map) b diff)

unfoldable pub calculate_diff :
    {Float : Type 0}
    → (ℕ → ℕ → Float)
    → Float
    → String
    → String
    → List EvalResult
    → List EvalResult
    → DiffResult Float
unfolding by_name current_loop base_loop has_token_errors
calculate_diff divide zero_float base_file current_file base_results current_results =
    base_loop (by_name current_results) base_results (
      current_loop (by_name base_results) current_results (record {
        base_stats = calculate_stats divide zero_float base_file base_results;
        head_stats = calculate_stats divide zero_float current_file current_results;
        regressions = [];
        improvements = [];
        new = [];
        removed = [];
        token_data_incomplete = has_token_errors base_results || has_token_errors current_results;
      }))
