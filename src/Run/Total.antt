-- ===== src/Run/Total.antt =====
-- That `executeTask` of pkg/eval/runner.go always has a result, and what it says.
use mcpchecker.Run.Timeouts.{answer}
use mcpchecker.Run.Stepped.{Stepped}
use mcpchecker.Run.Execute.{Outside}
use mcpchecker.Assert.Sets.{Outcome, outcome_succeeded}
use mcpchecker.Prelude.Result.{Result}
use mcpchecker.Run.Outcome.{Blank, Core, Honest, core, is_some}
use mcpchecker.Prelude.{Option, false, none, some, true, ◌≡◌}
use mcpchecker.Run.{EvalTask, EvalResult}

-- The result of a task: it names the task; it says that the task passed only if that is so; the cleanup
-- ran exactly if the agent did; and then the assertions were evaluated.
pub record IsOutcome (tc : EvalTask) (r : EvalResult) : Type 0 where
  pub named : (r.task_name ≡ tc.spec.metadata.name) × (r.task_path ≡ tc.path)
  pub honest : Honest (core r)
  pub cleaned : is_some r.cleanup_output ≡ is_some r.agent_output
  pub assessed :
      is_some r.agent_output ≡ true
      → r.all_assertions_passed ≡ outcome_succeeded r.assertion_results

-- The result of a setup that failed, whatever it was.
pub record Unset (tc : EvalTask) (c : Core) : Type 0 where
  pub named : c.name ≡ tc.spec.metadata.name
  pub placed : c.path ≡ tc.path
  pub blank : Blank c
  pub no_agent : c.has_agent ≡ false
  pub no_cleanup : c.has_cleanup ≡ false
  pub unassessed : c.assertions ≡ none

module _ {Ctx Mgr W : Type 0} (o : Outside Ctx Mgr W) where
  -- A computation that ends, with an outcome.
  abbrev Ends : EvalTask → Option (EvalResult × W) → Type 0
  Ends tc answer = (r : EvalResult) × (w : W) × (answer ≡ some (r, w)) × IsOutcome tc r
