-- ===== src/Run/Runs.antt =====
-- That `executeTask` of pkg/eval/runner.go runs a task as often as it should.
use mcpchecker.Prelude.Int.{ℤ}
use mcpchecker.Run.Total.{IsOutcome}
use mcpchecker.Prelude.{ℕ, List, [], ◌+◌, ◌∷◌, ◌≡◌}
use mcpchecker.Run.{EvalTask, EvalResult}

-- The results of the runs from the `index`-th on.
abbrev pub AreRuns : EvalTask → ℤ → ℕ → List EvalResult → Type 0
AreRuns tc runs index [] = Unit
AreRuns tc runs index (r ∷ results) =
    (r.run_index ≡ index)
    × (r.total_runs ≡ runs)
    × IsOutcome tc r
    × AreRuns tc runs (index + 1) results
