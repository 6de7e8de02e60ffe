-- ===== src/Results/Reasons.antt =====
-- Which failures the reports of pkg/results/results.go show.
use mathlib.Core.Path.{subst}
use mcpchecker.Assert.Result.Laws.{composite_succeeded_iff}
use mcpchecker.Run.{EvalResult}
use mcpchecker.Prelude.{
  All-append, eq_iff, if_false, if_true, not, sym, ◌∙◌, ap, false, ◌⊎◌, All, Bool-cases, List,
  Option, String, [], inl, inr, none, refl, some, true, ◌++◌, ◌↔◌, ◌∷◌, ◌≡◌,
}
use mcpchecker.Assert.{SingleAssertionResult, succeeded}
use mcpchecker.Assert.Result.{all_fields, composite_succeeded, CompositeAssertionResult}
use mcpchecker.Results.{
  reason_or, assertions_reason, collect_failed_assertions, failure_reason, add_failure,
}

-- The fields that the reports look at.
abbrev pub reported : CompositeAssertionResult → List (Option SingleAssertionResult)
reported a =
    a.tools_used ∷ a.require_any ∷ a.tools_not_used ∷ a.min_tool_calls ∷ a.max_tool_calls
    ∷ a.resources_read ∷ a.resources_not_read ∷ a.prompts_used ∷ a.prompts_not_used ∷ a.call_order
    ∷ a.no_duplicate_calls ∷ []

add_failure-append :
    (name : String) (f : Option SingleAssertionResult) (rest : List String) {P : Type 0}
    → ((rest ≡ []) ↔ P)
    → (add_failure name f ++ rest ≡ []) ↔ ((succeeded f ≡ true) × P)
unfolding add_failure succeeded
add_failure-append name none rest e = (λ h. (refl, e.0 h), λ h. e.1 h.1)
add_failure-append name (some r) rest e = elim (Bool-cases r.passed) [
  | inl p ↦ rw p (λ h. (refl, e.0 h), λ h. e.1 h.1)
  | inr p ↦ rw p (λ h. cc, λ h. cc)
]

add_failure_last :
    (name : String) (f : Option SingleAssertionResult)
    → (add_failure name f ≡ []) ↔ ((succeeded f ≡ true) × Unit {0})
unfolding add_failure succeeded
add_failure_last name none = (λ h. (refl, tt), λ h. refl)
add_failure_last name (some r) = elim (Bool-cases r.passed) [
  | inl p ↦ rw p (λ h. (refl, tt), λ h. refl)
  | inr p ↦ rw p (λ h. cc, λ h. cc)
]

-- No failed assertion is listed exactly when each of the eleven assertions on recorded calls succeeds.
pub collect_failed_assertions_iff :
    (a : CompositeAssertionResult)
    → (collect_failed_assertions a ≡ []) ↔ All (λ f. succeeded f ≡ true) (reported a)
unfolding collect_failed_assertions
collect_failed_assertions_iff a = add_failure-append _ a.tools_used _ (
    add_failure-append _ a.require_any _ (
      add_failure-append _ a.tools_not_used _ (
        add_failure-append _ a.min_tool_calls _ (
          add_failure-append _ a.max_tool_calls _ (
            add_failure-append _ a.resources_read _ (
              add_failure-append _ a.resources_not_read _ (
                add_failure-append _ a.prompts_used _ (
                  add_failure-append _ a.prompts_not_used _ (
                    add_failure-append _ a.call_order _
                      (add_failure_last _ a.no_duplicate_calls))))))))))

-- The reason of the first of the fields that failed; nothing if none did.
abbrev pub IsReason : List (Option SingleAssertionResult) → String → Type 0
IsReason fields s =
    (All (λ f. succeeded f ≡ true) fields × (s ≡ ""))
    ⊎ ((before : List (Option SingleAssertionResult)) × (f : SingleAssertionResult) × (after : List
          (Option SingleAssertionResult))
        × (fields ≡ before ++ some f ∷ after)
        × All (λ g. succeeded g ≡ true) before
        × (f.passed ≡ false)
        × (s ≡ f.reason))

skip_field :
    (f : Option SingleAssertionResult) (fields : List (Option SingleAssertionResult)) (s : String)
    → succeeded f ≡ true
    → IsReason fields s
    → IsReason (f ∷ fields) s
skip_field f fields s p (inl (a, e)) = inl ((p, a), e)
skip_field f fields s p (inr (before, g, after, e, a, q, r)) =
    inr (f ∷ before, g, after, ap (λ l. f ∷ l) e, (p, a), q, r)

reason_or-IsReason :
    (f : Option SingleAssertionResult) (fields : List (Option SingleAssertionResult)) (s : String)
    → IsReason fields s
    → IsReason (f ∷ fields) (reason_or f s)
unfolding reason_or succeeded
reason_or-IsReason none fields s h = skip_field none fields s refl h
reason_or-IsReason (some r) fields s h = elim (Bool-cases r.passed) [
  | inl p ↦
      subst (IsReason (some r ∷ fields)) (sym (if_false r.reason (ap not p)))
        (skip_field (some r) fields s p h)
  | inr p ↦
      subst (IsReason (some r ∷ fields)) (sym (if_true s (ap not p)))
        (inr ([], r, fields, refl, tt, p, refl))
]

All-split : {A : Type 0} (P : A → Type 0) (xs ys : List A) → All P (xs ++ ys) → All P xs × All P ys
All-split P [] ys a = (tt, a)
All-split P (x ∷ xs) ys a = let (b, c) = All-split P xs ys a.1 in ((a.0, b), c)

assertions_reason-IsReason :
    (a : CompositeAssertionResult) → IsReason (reported a) (assertions_reason (some a))
unfolding assertions_reason
assertions_reason-IsReason a = reason_or-IsReason a.tools_used _ _ (
    reason_or-IsReason a.require_any _ _ (
      reason_or-IsReason a.tools_not_used _ _ (
        reason_or-IsReason a.min_tool_calls _ _ (
          reason_or-IsReason a.max_tool_calls _ _ (
            reason_or-IsReason a.resources_read _ _ (
              reason_or-IsReason a.resources_not_read _ _ (
                reason_or-IsReason a.prompts_used _ _ (
                  reason_or-IsReason a.prompts_not_used _ _ (
                    reason_or-IsReason a.call_order _ _
                      (reason_or-IsReason a.no_duplicate_calls [] "" (inl (tt, refl))))))))))))

-- Without an error of the task, the reported reason is that of the first of eleven assertions that
-- failed, and empty if none of them did; but the result succeeds exactly when these eleven and the
-- two on skills do.
pub failure_reason_first :
    (r : EvalResult) (a : CompositeAssertionResult)
    → r.task_error ≡ ""
    → r.assertion_results ≡ some a
    → IsReason (reported a) (failure_reason r)
      × ((composite_succeeded a ≡ true) ↔ (
          All (λ f. succeeded f ≡ true) (reported a)
          × (succeeded a.skills_loaded ≡ true)
          × (succeeded a.skills_not_loaded ≡ true)))
unfolding failure_reason all_fields
failure_reason_first r a e p =
    let (f, g) = composite_succeeded_iff a in
    let skills = a.skills_loaded ∷ a.skills_not_loaded ∷ [] in
    (
      subst (IsReason (reported a))
          (sym (
            if_false r.task_error (ap not ((eq_iff r.task_error "").1 e)) ∙ ap assertions_reason p))
          (assertions_reason-IsReason a),
      (
        λ h.
            let (x, y) = All-split (λ f. succeeded f ≡ true) (reported a) skills (f h) in
            (x, y.0, y.1.0),
        λ h. g (All-append (λ f. succeeded f ≡ true) (reported a) skills h.0 (h.1, (h.2, tt))),
      ),
    )
