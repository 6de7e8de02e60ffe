-- ===== src/Assert/Result/Laws.antt =====
-- The counts and `Merge` of composite results.
use mcpchecker.Prelude.{
  ◌++◌, All, ap, ◌∙◌, Bool-cases, inl, inr, ℕ, ◌+◌, ◌≤◌, true, ◌&&◌, Option, none, some, List, [],
  ◌∷◌, ◌≡◌, ◌↔◌, refl, arith,
}
use mcpchecker.Assert.{SingleAssertionResult, succeeded}
use mcpchecker.Assert.Result.{
  CompositeAssertionResult, all_fields, all_succeeded, composite_succeeded, count_total,
  count_passed, total_assertions, passed_assertions, failed_assertions, merge_field, merge_fields,
}

-- The total runs ahead of the passed ones by the failures met, and no failure is met exactly when
-- all succeed.
count-all_succeeded :
    (n m : ℕ) (fs : List (Option SingleAssertionResult))
    → (count_passed n fs + m ≤ count_total m fs + n)
      × ((all_succeeded fs ≡ true) → count_total m fs + n ≡ count_passed n fs + m)
      × (count_total m fs + n ≡ count_passed n fs + m → all_succeeded fs ≡ true)
unfolding count_passed count_total all_succeeded
count-all_succeeded n m [] = (omega arith, λ _. omega arith, λ _. refl)
count-all_succeeded n m (none ∷ fs) = count-all_succeeded n m fs
count-all_succeeded n m (some r ∷ fs) = elim (Bool-cases r.passed) [
  | inl h ↦
      let (a, b, c) = count-all_succeeded (n + 1) (m + 1) fs in
      rw h (omega arith, λ e. omega (arith, b e), λ e. c (omega arith))
  | inr h ↦
      let (a, b, c) = count-all_succeeded n (m + 1) fs in
      rw h (omega arith, λ e. cc, λ e. absurd (omega arith))
]

-- A result succeeds exactly when each field does.
pub composite_succeeded_iff :
    (c : CompositeAssertionResult)
    → (composite_succeeded c ≡ true) ↔ All (λ f. succeeded f ≡ true) (all_fields c)
unfolding composite_succeeded
composite_succeeded_iff c = go (all_fields c)
  where
    go :
        (fs : List (Option SingleAssertionResult))
        → (all_succeeded fs ≡ true) ↔ All (λ f. succeeded f ≡ true) fs
    go [] = (λ _. tt, λ _. refl)
    go (f ∷ fs) = elim (Bool-cases (succeeded f)) [
      | inl h ↦ rw (h, all_succeeded) (λ e. (refl, (go fs).0 e), λ p. (go fs).1 p.1)
      | inr h ↦ rw (h, all_succeeded) (λ e. cc, λ p. p.0)
    ]

-- The counts of a result: as many assertions pass as are evaluated at most, the passed and the failed
-- ones are all of them, and no assertion fails exactly when the result as a whole succeeds.
pub assertion_counts :
    (c : CompositeAssertionResult)
    → (passed_assertions c ≤ total_assertions c)
      × (passed_assertions c + failed_assertions c ≡ total_assertions c)
      × ((failed_assertions c ≡ 0) ↔ (composite_succeeded c ≡ true))
unfolding passed_assertions total_assertions failed_assertions composite_succeeded
assertion_counts c =
    let (a, b, d) = count-all_succeeded 0 0 (all_fields c) in
    (omega arith, omega arith, (λ e. d (omega arith), λ e. omega (arith, b e)))

succeeded-merge_field :
    (x y : Option SingleAssertionResult) → succeeded (merge_field x y) ≡ succeeded x && succeeded y
unfolding merge_field succeeded
succeeded-merge_field x y = ground arith

-- Field by field.
merge_lists :
    List (Option SingleAssertionResult)
    → List (Option SingleAssertionResult)
    → List (Option SingleAssertionResult)
merge_lists [] gs = gs
merge_lists (f ∷ fs) [] = f ∷ fs
merge_lists (f ∷ fs) (g ∷ gs) = merge_field f g ∷ merge_lists fs gs

all_succeeded-merge_lists :
    (fs gs : List (Option SingleAssertionResult))
    → all_succeeded (merge_lists fs gs) ≡ all_succeeded fs && all_succeeded gs
unfolding all_succeeded merge_lists
all_succeeded-merge_lists [] gs = refl
all_succeeded-merge_lists (f ∷ fs) [] = ground arith
all_succeeded-merge_lists (f ∷ fs) (g ∷ gs) =
    rw (succeeded-merge_field f g, all_succeeded-merge_lists fs gs) (ground arith)

all_fields-merge :
    (c d : CompositeAssertionResult)
    → all_fields (merge_fields c d) ≡ merge_lists (all_fields c) (all_fields d)
unfolding all_fields merge_fields merge_lists
all_fields-merge c d = refl

-- Merging loses no failure and adds none: the merged result succeeds exactly when both do.
pub composite_succeeded-merge :
    (c d : CompositeAssertionResult)
    → composite_succeeded (merge_fields c d) ≡ composite_succeeded c && composite_succeeded d
unfolding composite_succeeded
composite_succeeded-merge c d =
    ap all_succeeded (all_fields-merge c d)
    ∙ all_succeeded-merge_lists (all_fields c) (all_fields d)

all_succeeded-append :
    (fs gs : List (Option SingleAssertionResult))
    → all_succeeded (fs ++ gs) ≡ all_succeeded fs && all_succeeded gs
unfolding all_succeeded
all_succeeded-append [] gs = refl
all_succeeded-append (f ∷ fs) gs = rw (all_succeeded-append fs gs) (ground arith)

-- The fields that `Evaluate` may set.
abbrev call_fields : CompositeAssertionResult → List (Option SingleAssertionResult)
call_fields c =
    c.tools_used ∷ c.require_any ∷ c.tools_not_used ∷ c.min_tool_calls ∷ c.max_tool_calls
    ∷ c.resources_read ∷ c.resources_not_read ∷ c.prompts_used ∷ c.prompts_not_used ∷ c.call_order
    ∷ c.no_duplicate_calls ∷ []

split_skills :
    (c : CompositeAssertionResult)
    → composite_succeeded c
      ≡ all_succeeded (call_fields c)
        && (succeeded c.skills_loaded && succeeded c.skills_not_loaded)
unfolding composite_succeeded
split_skills c =
    all_succeeded-append (call_fields c) (c.skills_loaded ∷ c.skills_not_loaded ∷ [])
    ∙ ap (λ b. all_succeeded (call_fields c) && b) (two c.skills_loaded c.skills_not_loaded)
  where
    two :
        (x y : Option SingleAssertionResult)
        → all_succeeded (x ∷ y ∷ []) ≡ succeeded x && succeeded y
    two x y = ground arith

-- Filling in the skill fields of a result that has none adds their failures to it.
pub composite_succeeded-skills :
    (r : CompositeAssertionResult) (x y : Option SingleAssertionResult)
    → r.skills_loaded ≡ none
    → r.skills_not_loaded ≡ none
    → composite_succeeded (record r { skills_loaded = x; skills_not_loaded = y })
      ≡ composite_succeeded r && (succeeded x && succeeded y)
unfolding succeeded
composite_succeeded-skills r x y p q =
    rw (split_skills r, split_skills (record r { skills_loaded = x; skills_not_loaded = y }), p, q)
      (ground arith)
