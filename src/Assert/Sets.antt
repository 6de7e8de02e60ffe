-- ===== src/Assert/Sets.antt =====
-- `evaluateTaskAssertions` of pkg/eval/runner.go: a task may belong to several task sets, each with
-- its own assertions; the results are merged, and whether all passed is kept beside them.
use mcpchecker.Agent.{ToolCallSummary}
use mcpchecker.Prelude.{
  eq_iff, String, str_eq, Bool, true, false, not, ◌&&◌, Option, none, some, List, [], ◌∷◌,
  if◌then◌else◌, ◌≡◌, ◌≢◌, ◌↔◌, refl, All, arith, ◌>>=◌, Bool-cases, inl, inr,
}
use mcpchecker.Proxy.{CallHistory}
use mcpchecker.Assert.{TaskAssertions}
use mcpchecker.Assert.Duplicates.{HaveRequests}
use mcpchecker.Assert.Search.Verdicts.{Met}
use mcpchecker.Assert.Result.{CompositeAssertionResult, composite_succeeded, merge}
use mcpchecker.Assert.Result.Laws.{composite_succeeded-skills, composite_succeeded-merge}
use mcpchecker.Assert.Composite.{Library, new_composite_evaluator, evaluate_composite}
use mcpchecker.Assert.Composite.Asked.{All-none}
use mcpchecker.Assert.Composite.Satisfied.{Satisfied, evaluate_composite_iff}
use mcpchecker.Assert.Skills.{
  if_any_iff, MeetsSkill, collect_skill_inputs, evaluate_skill_assertions, evaluate_skills_iff,
}

-- The two fields of `EvalResult` that the method sets.
pub record Outcome : Type 0 where
  pub assertion_results : Option CompositeAssertionResult
  pub all_assertions_passed : Bool

-- What one set of assertions yields.
evaluate_set :
    Library
    → String
    → CallHistory
    → List ToolCallSummary
    → TaskAssertions
    → Option CompositeAssertionResult
evaluate_set lib tool_name h tool_calls a = do
  results ← evaluate_composite lib (new_composite_evaluator a) h
  some (evaluate_skill_assertions lib tool_name a tool_calls results)

-- One round: `combinedResults` takes the results in, and `allPassed` falls if they failed.
combine :
    Option CompositeAssertionResult → CompositeAssertionResult → Option CompositeAssertionResult
combine none results = some results
combine (some c) results = merge (some c) (some results)

absorb : Outcome → CompositeAssertionResult → Outcome
unfolding combine
absorb o results = record {
  assertion_results = combine o.assertion_results results;
  all_assertions_passed =
      if not (composite_succeeded results) then false else o.all_assertions_passed;
}

-- The loop, over `combinedResults` and `allPassed`; a nil set is passed over.
evaluate_sets :
    Library
    → String
    → CallHistory
    → List ToolCallSummary
    → List (Option TaskAssertions)
    → Outcome
    → Option Outcome
unfolding evaluate_set absorb
evaluate_sets lib tool h tcs [] o = some o
evaluate_sets lib tool h tcs (none ∷ sets) o = evaluate_sets lib tool h tcs sets o
evaluate_sets lib tool h tcs (some a ∷ sets) o = do
  results ← evaluate_set lib tool h tcs a
  evaluate_sets lib tool h tcs sets (absorb o results)

-- The whole method. With no assertions only the flag is set.
unfoldable pub evaluate_task_assertions :
    Library
    → String
    → CallHistory
    → List ToolCallSummary
    → List (Option TaskAssertions)
    → Outcome
    → Option Outcome
unfolding evaluate_sets
evaluate_task_assertions lib tool h tcs [] o = some (record o { all_assertions_passed = true })
evaluate_task_assertions lib tool h tcs (a ∷ sets) o =
    evaluate_sets lib tool h tcs (a ∷ sets)
      (record { assertion_results = none; all_assertions_passed = true })

-- Whether an optional result succeeds; a nil one has nothing that failed.
abbrev pub outcome_succeeded : Option CompositeAssertionResult → Bool
outcome_succeeded none = true
outcome_succeeded (some c) = composite_succeeded c

-- The flag agrees with the results.
abbrev pub IsConsistent : Outcome → Type 0
IsConsistent o = o.all_assertions_passed ≡ outcome_succeeded o.assertion_results

combine-consistent :
    (results : CompositeAssertionResult) (c : Option CompositeAssertionResult)
    → outcome_succeeded (combine c results) ≡ composite_succeeded results && outcome_succeeded c
unfolding combine merge
combine-consistent results none = ground arith
combine-consistent results (some c) = rw (composite_succeeded-merge c results) (ground arith)

absorb-IsConsistent :
    (o : Outcome) (results : CompositeAssertionResult)
    → IsConsistent o
    → IsConsistent (absorb o results)
unfolding absorb
absorb-IsConsistent o results k = ground (arith, combine-consistent results o.assertion_results, k)

-- The calls meet everything that one set asks for, its skills included where the agent has a tool
-- for them.
abbrev pub SetSatisfied :
    Library → String → CallHistory → List ToolCallSummary → TaskAssertions → Type 0
SetSatisfied lib tool h tcs a =
    Satisfied lib a h
    × (tool ≢ ""
        → All (Met (MeetsSkill lib.match_string) (collect_skill_inputs lib tcs tool))
            a.skills_loaded
          × All (λ s. ¬ Met (MeetsSkill lib.match_string) (collect_skill_inputs lib tcs tool) s)
              a.skills_not_loaded)

-- Every set that is there is satisfied.
abbrev pub AllSatisfied :
    Library → String → CallHistory → List ToolCallSummary → List (Option TaskAssertions) → Type 0
AllSatisfied lib tool h tcs [] = Unit
AllSatisfied lib tool h tcs (none ∷ sets) = AllSatisfied lib tool h tcs sets
AllSatisfied lib tool h tcs (some a ∷ sets) =
    SetSatisfied lib tool h tcs a × AllSatisfied lib tool h tcs sets

and3_iff :
    {P Q R : Type 0} (a b c : Bool)
    → ((a ≡ true) ↔ P)
    → ((b ≡ true) ↔ Q)
    → ((c ≡ true) ↔ R)
    → (a && (b && c) ≡ true) ↔ (P × (Q × R))
and3_iff true true true p q r = (λ _. (p.0 refl, (q.0 refl, r.0 refl)), λ _. refl)
and3_iff false b c p q r = (λ h. cc, λ y. p.1 y.0)
and3_iff true false c p q r = (λ h. cc, λ y. q.1 y.1.0)
and3_iff true true false p q r = (λ h. cc, λ y. r.1 y.1.1)

module _ (lib : Library) (tool : String) (tcs : List ToolCallSummary) where
  abbrev inputs : List String
  inputs = collect_skill_inputs lib tcs tool

  -- The two skill fields, from the verdicts of the checks.
  skills_iff :
      (a : TaskAssertions) (r : CompositeAssertionResult) {P : Type 0}
      → (composite_succeeded r ≡ true) ↔ P
      → r.skills_loaded ≡ none
      → r.skills_not_loaded ≡ none
      → (composite_succeeded (evaluate_skill_assertions lib tool a tcs r) ≡ true) ↔ (
          P
          × (tool ≢ ""
              → All (Met (MeetsSkill lib.match_string) inputs) a.skills_loaded
                × All (λ s. ¬ Met (MeetsSkill lib.match_string) inputs s) a.skills_not_loaded))
  unfolding evaluate_skill_assertions
  skills_iff a r v p q = elim (Bool-cases (str_eq tool "")) [
    | inl e ↦ rw e (λ s. (v.0 s, λ n. absurd (n ((eq_iff tool "").0 e))), λ y. v.1 y.0)
    | inr e ↦
        rw (e, composite_succeeded-skills r _ _ p q)
          (let l =
              if_any_iff a.skills_loaded _ r.skills_loaded
                (evaluate_skills_iff lib a.skills_loaded tcs tool).0 (All-none _ _) p in
            let u =
              if_any_iff a.skills_not_loaded _ r.skills_not_loaded
                (evaluate_skills_iff lib a.skills_not_loaded tcs tool).1 (All-none _ _) q in
            let (f, g) = and3_iff _ _ _ v l u in
            (λ s. ((f s).0, λ _. (f s).1), λ y. g (y.0, y.1 (ground (arith, eq_iff tool "")))))
  ]

-- An evaluated set succeeds exactly when the calls satisfy it.
evaluate_set_iff :
    (lib : Library) (tool : String) (h : CallHistory) (tcs : List ToolCallSummary)
    → (a : TaskAssertions) → HaveRequests h.tool_calls
    → (r : CompositeAssertionResult) × (evaluate_set lib tool h tcs a ≡ some r)
      × ((composite_succeeded r ≡ true) ↔ SetSatisfied lib tool h tcs a)
unfolding evaluate_set
evaluate_set_iff lib tool h tcs a have =
    let (r, e, v, p, q) = evaluate_composite_iff lib a h have in
    (evaluate_skill_assertions lib tool a tcs r, rw e, skills_iff lib tool tcs a r v p q)

absorb_flag :
    (o : Outcome) (r : CompositeAssertionResult)
    → ((absorb o r).all_assertions_passed ≡ true)
      ↔ ((composite_succeeded r ≡ true) × (o.all_assertions_passed ≡ true))
unfolding absorb
absorb_flag o r = (λ s. ground arith, λ y. ground arith)

-- The loop over the sets returns an outcome whose flag agrees with its results and says whether the
-- earlier sets and all of these were satisfied.
evaluate_sets_iff :
    (lib : Library) (tool : String) (h : CallHistory) (tcs : List ToolCallSummary)
    → (sets : List (Option TaskAssertions)) (o : Outcome) → HaveRequests h.tool_calls
    → IsConsistent o
    → (r : Outcome) × (evaluate_sets lib tool h tcs sets o ≡ some r)
      × IsConsistent r
      × ((r.all_assertions_passed ≡ true)
          ↔ ((o.all_assertions_passed ≡ true) × AllSatisfied lib tool h tcs sets))
unfolding evaluate_sets
evaluate_sets_iff lib tool h tcs [] o have k = (o, refl, k, (λ s. (s, tt), λ y. y.0))
evaluate_sets_iff lib tool h tcs (none ∷ sets) o have k =
    evaluate_sets_iff lib tool h tcs sets o have k
evaluate_sets_iff lib tool h tcs (some a ∷ sets) o have k =
    let (r, e, v) = evaluate_set_iff lib tool h tcs a have in
    let (o', e', k', v') =
      evaluate_sets_iff lib tool h tcs sets (absorb o r) have (absorb-IsConsistent o r k) in
    let (f, g) = absorb_flag o r in
    (
      o',
      rw e e',
      k',
      (
        λ s. let (now, later) = v'.0 s in ((f now).1, (v.0 (f now).0, later)),
        λ y. v'.1 (g (v.1 y.1.0, y.0), y.1.1),
      ),
    )

-- If every tool call has a request and no results stand yet, the evaluation of a task's assertions
-- returns; `allAssertionsPassed` is true exactly when the merged results succeed, and exactly when the
-- calls satisfy every set of assertions that the task came with.
pub evaluate_task_assertions_iff :
    (lib : Library) (tool : String) (h : CallHistory) (tcs : List ToolCallSummary)
    → (sets : List (Option TaskAssertions)) (o : Outcome) → HaveRequests h.tool_calls
    → o.assertion_results ≡ none
    → (r : Outcome) × (evaluate_task_assertions lib tool h tcs sets o ≡ some r)
      × (r.all_assertions_passed ≡ outcome_succeeded r.assertion_results)
      × ((r.all_assertions_passed ≡ true) ↔ AllSatisfied lib tool h tcs sets)
unfolding evaluate_task_assertions
evaluate_task_assertions_iff lib tool h tcs [] o have e =
    (record o { all_assertions_passed = true }, refl, rw e refl, (λ _. tt, λ _. refl))
evaluate_task_assertions_iff lib tool h tcs (a ∷ sets) o have e =
    let (r, e', k, v) =
      evaluate_sets_iff lib tool h tcs (a ∷ sets)
        (record { assertion_results = none; all_assertions_passed = true }) have refl in
    (r, e', k, (λ s. (v.0 s).1, λ y. v.1 (refl, y)))
