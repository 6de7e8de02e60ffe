-- ===== src/Results/Counts.antt =====
-- The counts of `CalculateStats` of pkg/results/results.go.
use mcpchecker.Run.{EvalResult}
use mcpchecker.Assert.Result.Laws.{assertion_counts}
use mcpchecker.Prelude.Word.{add64, int64_mod}
use mcpchecker.Assert.Sets.{outcome_succeeded}
use mcpchecker.Prelude.{
  ℕ, All, Bool-cases, List, Option-cases, String, [], arith, if◌then◌else◌, inl, inr, length, none,
  refl, some, true, ◌%◌, ◌+◌, ◌<◌, ◌↔◌, ◌∙◌, ◌∷◌, ◌≡◌, ◌≤◌,
}
use mcpchecker.Results.{
  task_passed_assertions, task_total_assertions, Stats, stats_loop, calculate_stats, count_tokens,
  count_assertions, count_passed_task,
}

-- All assertions of a result pass exactly when the result succeeds.
task_assertions :
    (r : EvalResult)
    → (task_passed_assertions r ≤ task_total_assertions r)
      × ((task_passed_assertions r ≡ task_total_assertions r)
          ↔ (outcome_succeeded r.assertion_results ≡ true))
unfolding task_passed_assertions task_total_assertions
task_assertions r = elim (Option-cases r.assertion_results) [
  | inl e ↦ rw e (omega arith, (λ _. refl, λ _. refl))
  | inr (a, e) ↦
      let (x, y, z) = assertion_counts a in
      rw e (x, (λ h. z.0 (omega (arith, y)), λ h. omega (arith, y, z.1 h)))
]

-- The tokens of the results that have an estimate, with no bound.
abbrev pub sum_tokens : List EvalResult → ℕ
sum_tokens [] = 0
sum_tokens (r ∷ rs) = elim r.token_estimate [ none ↦ 0 | some e ↦ e.total_tokens ] + sum_tokens rs

module _ {Float : Type 0} where
  abbrev round : EvalResult → Stats Float → Stats Float
  round r s =
      count_tokens r.token_estimate
        (count_assertions r.assertion_results (count_passed_task r.task_passed s))

  round-tasks :
      (r : EvalResult) (s : Stats Float)
      → ((round r s).tasks_total ≡ s.tasks_total)
        × ((round r s).tasks_passed
            ≡ (if r.task_passed then s.tasks_passed + 1 else s.tasks_passed))
  unfolding count_tokens count_assertions count_passed_task
  round-tasks r s = (ground arith, ground arith)

  round-assertions :
      (r : EvalResult) (s : Stats Float)
      → ((round r s).assertions_total ≡ s.assertions_total + task_total_assertions r)
        × ((round r s).assertions_passed ≡ s.assertions_passed + task_passed_assertions r)
  unfolding count_tokens count_assertions count_passed_task task_total_assertions
      task_passed_assertions
  round-assertions r s = (ground arith, ground arith)

  round-tokens :
      (r : EvalResult) (s : Stats Float)
      → (round r s).total_tokens ≡ elim r.token_estimate as (λ _. ℕ) [
        | none ↦ s.total_tokens
        | some e ↦ add64 s.total_tokens e.total_tokens
      ]
  unfolding count_tokens count_assertions count_passed_task
  round-tokens r s = ground arith

  loop-tasks :
      (rs : List EvalResult) (s : Stats Float)
      → ((stats_loop rs s).tasks_total ≡ s.tasks_total)
        × ((stats_loop rs s).tasks_passed ≤ s.tasks_passed + length rs)
        × ((s.tasks_passed + length rs ≡ (stats_loop rs s).tasks_passed)
            ↔ All (λ r. r.task_passed ≡ true) rs)
  unfolding stats_loop
  loop-tasks [] s = (refl, omega arith, (λ _. tt, λ _. omega arith))
  loop-tasks (r ∷ rs) s =
      let (x, y) = round-tasks r s in
      let (a, b, c) = loop-tasks rs (round r s) in
      elim (Bool-cases r.task_passed) [
        | inl p ↦
            let y' : (round r s).tasks_passed ≡ s.tasks_passed + 1 = ground arith in
            (
              a ∙ x,
              omega (arith, b, y'),
              (λ h. (p, c.0 (omega (arith, y'))), λ h. omega (arith, c.1 h.1, y')),
            )
        | inr p ↦
            let y' : (round r s).tasks_passed ≡ s.tasks_passed = ground arith in
            (a ∙ x, omega (arith, b, y'), (λ h. absurd (omega (arith, b, y')), λ h. cc))
      ]

  loop-assertions :
      (rs : List EvalResult) (s : Stats Float)
      → ((stats_loop rs s).assertions_passed + s.assertions_total
          ≤ (stats_loop rs s).assertions_total + s.assertions_passed)
        × (((stats_loop rs s).assertions_passed + s.assertions_total
              ≡ (stats_loop rs s).assertions_total + s.assertions_passed)
            ↔ All (λ r. outcome_succeeded r.assertion_results ≡ true) rs)
  unfolding stats_loop
  loop-assertions [] s = (omega arith, (λ _. tt, λ _. omega arith))
  loop-assertions (r ∷ rs) s =
      let (x, y) = round-assertions r s in
      let (u, v) = task_assertions r in
      let (a, c) = loop-assertions rs (round r s) in
      (
        omega (arith, x, y, u, a),
        (
          λ h. (v.0 (omega (arith, x, y, u, a)), c.0 (omega (arith, x, y, u, a))),
          λ h. omega (arith, x, y, c.1 h.1, v.1 h.0),
        ),
      )

  loop-tokens :
      (rs : List EvalResult) (s : Stats Float)
      → s.total_tokens < int64_mod
      → (stats_loop rs s).total_tokens ≡ (s.total_tokens + sum_tokens rs) % int64_mod
  unfolding stats_loop
  loop-tokens [] s h = omega arith
  loop-tokens (r ∷ rs) s h =
      let x = round-tokens r s in
      elim (Option-cases r.token_estimate) [
        | inl e ↦
            let x' : (round r s).total_tokens ≡ s.total_tokens = ground arith in
            let y : sum_tokens (r ∷ rs) ≡ 0 + sum_tokens rs = rw e refl in
            loop-tokens rs (round r s) (omega (arith, x')) ∙ omega (arith, x', y)
        | inr (t, e) ↦
            let x' : (round r s).total_tokens ≡ add64 s.total_tokens t.total_tokens =
              ground arith in
            let y : sum_tokens (r ∷ rs) ≡ t.total_tokens + sum_tokens rs = rw e refl in
            loop-tokens rs (round r s) (omega (arith, x')) ∙ omega (arith, x', y)
      ]

-- The statistics of a run: every result is counted; no more tasks and assertions pass than there are,
-- and all of them do exactly when each result says so; the tokens are the sum over the results that
-- have an estimate, modulo 2^64.
pub calculate_stats_counts :
    {Float : Type 0} (divide : ℕ → ℕ → Float) (zero_float : Float) (file : String)
    (results : List EvalResult)
    → let s = calculate_stats divide zero_float file results in
      (s.tasks_total ≡ length results)
      × (s.tasks_passed ≤ s.tasks_total)
      × ((s.tasks_total ≡ s.tasks_passed) ↔ All (λ r. r.task_passed ≡ true) results)
      × (s.assertions_passed ≤ s.assertions_total)
      × ((s.assertions_passed ≡ s.assertions_total)
          ↔ All (λ r. outcome_succeeded r.assertion_results ≡ true) results)
      × (s.total_tokens ≡ sum_tokens results % int64_mod)
unfolding calculate_stats
calculate_stats_counts divide zero_float file results =
    let s : Stats _ = record {
      results_file = file;
      tasks_total = length results;
      tasks_passed = 0;
      task_pass_rate = zero_float;
      assertions_total = 0;
      assertions_passed = 0;
      assertion_pass_rate = zero_float;
      total_tokens = 0;
      mcp_schema_tokens = 0;
      tasks_with_tokens = 0;
    } in
    let (a, b, c) = loop-tasks results s in
    let (d, e) = loop-assertions results s in
    let f = loop-tokens results s (omega arith) in
    (
      a,
      omega (arith, a, b),
      (λ h. c.0 (omega (arith, a)), λ h. omega (arith, a, c.1 h)),
      omega (arith, d),
      (λ h. e.0 (omega arith), λ h. omega (arith, e.1 h)),
      omega (arith, f),
    )
