-- ===== src/Results/Diff/Steps.antt =====
-- What one round of the loops of `calculateDiff` of pkg/cli/diff.go adds to each list.
use mcpchecker.Run.{EvalResult}
use mcpchecker.Results.Diff.Lookup.{Changed, Named}
use mcpchecker.Prelude.{
  Any-last, Bool-cases, List, Option, String, [], ap, arith, false, inl, inr, none, refl, some,
  true, ◌++◌, ◌↔◌, ◌∷◌, ◌≡◌, ◌⊎◌,
}
use mcpchecker.Results.Diff.{
  removed_task, task_diff, new_task, DiffResult, TaskDiff, passed, compare_task, compare_current,
  remove_base,
}

module _ {Float : Type 0} (n : String) (c : EvalResult) (diff : DiffResult Float) where
  -- One more diff at the end of a list.
  last_diff :
      (ds : List TaskDiff) (d : TaskDiff) {P : Type 0}
      → ((d.task_name ≡ n) ↔ P)
      → Named n (ds ++ d ∷ []) ↔ (Named n ds ⊎ P)
  last_diff ds d e =
      let (f, g) = Any-last (λ d. d.task_name ≡ n) ds d in
      (
        λ h. elim (f h) [ inl y ↦ inl y | inr y ↦ inr (e.0 y) ],
        elim [ inl y ↦ g (inl y) | inr y ↦ g (inr (e.1 y)) ],
      )

  same_list : (ds : List TaskDiff) {P : Type 0} → (¬ P) → Named n ds ↔ (Named n ds ⊎ P)
  same_list ds k = (inl, elim [ inl h ↦ h | inr h ↦ absurd (k h) ])

  pub regression_step :
      (o : Option EvalResult)
      → Named n (compare_current o c diff).regressions
        ↔ (Named n diff.regressions ⊎ Changed o true false n c)
  unfolding compare_current compare_task task_diff
  regression_step none = same_list diff.regressions (λ (p, q, (b, e, r)). cc)
  regression_step (some b) = elim (Bool-cases (passed b)) [
    | inl p ↦ elim (Bool-cases (passed c)) [
      | inl q ↦ rw (p, q) (same_list diff.regressions (λ (x, y, z). cc))
      | inr q ↦ rw (p, q) (last_diff diff.regressions _ (λ h. (h, refl, (b, refl, p)), λ h. h.0))
    ]
    | inr p ↦ elim (Bool-cases (passed c)) [
      | inl q ↦ rw (p, q) (same_list diff.regressions (λ (x, y, z). cc))
      | inr q ↦
          rw (p, q)
            (same_list diff.regressions
              (λ (x, y, (b', e, r)). let t : b ≡ b' = cc in cc (ap passed t)))
    ]
  ]

  pub improvement_step :
      (o : Option EvalResult)
      → Named n (compare_current o c diff).improvements
        ↔ (Named n diff.improvements ⊎ Changed o false true n c)
  unfolding compare_current compare_task task_diff
  improvement_step none = same_list diff.improvements (λ (p, q, (b, e, r)). cc)
  improvement_step (some b) = elim (Bool-cases (passed b)) [
    | inl p ↦ elim (Bool-cases (passed c)) [
      | inl q ↦
          rw (p, q)
            (same_list diff.improvements
              (λ (x, y, (b', e, r)). let t : b ≡ b' = cc in cc (ap passed t)))
      | inr q ↦ rw (p, q) (same_list diff.improvements (λ (x, y, z). cc))
    ]
    | inr p ↦ elim (Bool-cases (passed c)) [
      | inl q ↦ rw (p, q) (last_diff diff.improvements _ (λ h. (h, refl, (b, refl, p)), λ h. h.0))
      | inr q ↦ rw (p, q) (same_list diff.improvements (λ (x, y, z). cc))
    ]
  ]

  compare_task_keeps :
      (b : EvalResult)
      → ((compare_task b c diff).new ≡ diff.new) × ((compare_task b c diff).removed ≡ diff.removed)
  unfolding compare_task
  compare_task_keeps b = (ground arith, ground arith)

  pub new_step :
      (o : Option EvalResult)
      → Named n (compare_current o c diff).new
        ↔ (Named n diff.new ⊎ ((c.task_name ≡ n) × (o ≡ none)))
  unfolding compare_current new_task
  new_step none = last_diff diff.new (new_task c) (λ h. (h, refl), λ h. h.0)
  new_step (some b) = rw ((compare_task_keeps b).0) (same_list diff.new (λ (x, y). cc))

  pub current_keeps : (o : Option EvalResult) → (compare_current o c diff).removed ≡ diff.removed
  unfolding compare_current
  current_keeps none = refl
  current_keeps (some b) = (compare_task_keeps b).1

  pub removed_step :
      (o : Option EvalResult)
      → Named n (remove_base o c diff).removed
        ↔ (Named n diff.removed ⊎ ((c.task_name ≡ n) × (o ≡ none)))
  unfolding remove_base removed_task
  removed_step none = last_diff diff.removed (removed_task c) (λ h. (h, refl), λ h. h.0)
  removed_step (some b) = same_list diff.removed (λ (x, y). cc)

  pub base_keeps :
      (o : Option EvalResult)
      → ((remove_base o c diff).regressions ≡ diff.regressions)
        × ((remove_base o c diff).improvements ≡ diff.improvements)
        × ((remove_base o c diff).new ≡ diff.new)
  unfolding remove_base
  base_keeps none = (refl, refl, refl)
  base_keeps (some b) = (refl, refl, refl)
