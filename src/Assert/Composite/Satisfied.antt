-- ===== src/Assert/Composite/Satisfied.antt =====
-- When a whole set of assertions holds, and that `Evaluate` decides it.
use mcpchecker.Assert.Composite.Asked.{
  All-none, asked_by_iff, asked_if_iff, asked_iff, asked_some_iff, order_result, returned,
}
use mcpchecker.Prelude.{refl, ◌+◌, ◌≤◌, true, none, some, [], ◌≡◌, ◌≢◌, ◌↔◌, refl, All, Any, length}
use mcpchecker.Prelude.Int.{ℤ, pos_part, neg_part}
use mcpchecker.Proxy.{CallHistory}
use mcpchecker.Assert.{TaskAssertions, SingleAssertionResult, succeeded}
use mcpchecker.Assert.Order.{Follows, all_calls}
use mcpchecker.Assert.Duplicates.{HaveRequests, keys, Distinct, evaluate_no_duplicates_iff}
use mcpchecker.Assert.Search.Verdicts.{
  MeetsTool, MeetsResource, MeetsPrompt, Met, evaluate_tools_used_iff, evaluate_require_any_iff,
  evaluate_tools_not_used_iff, evaluate_tool_calls_bounds, evaluate_resources_read_iff,
  evaluate_resources_not_read_iff, evaluate_prompts_used_iff, evaluate_prompts_not_used_iff,
}
use mcpchecker.Assert.Result.{CompositeAssertionResult, composite_succeeded, all_fields}
use mcpchecker.Assert.Result.Laws.{composite_succeeded_iff}
use mcpchecker.Assert.Composite.{Library, new_composite_evaluator, evaluate_composite}
use mcpchecker.Assert.Composite.Fields.{asked, results_of, evaluate_composite_fields}

-- The calls meet everything that the eval file asks of them.
pub record Satisfied (lib : Library) (a : TaskAssertions) (h : CallHistory) : Type 0 where
  pub tools_used : All (Met (MeetsTool lib.match_string) h.tool_calls) a.tools_used
  pub require_any :
      a.require_any ≢ [] → Any (Met (MeetsTool lib.match_string) h.tool_calls) a.require_any
  pub tools_not_used : All (λ t. ¬ Met (MeetsTool lib.match_string) h.tool_calls t) a.tools_not_used
  pub min_tool_calls :
      (n : ℤ) → a.min_tool_calls ≡ some n → pos_part n ≤ length h.tool_calls + neg_part n
  pub max_tool_calls :
      (n : ℤ) → a.max_tool_calls ≡ some n → length h.tool_calls + neg_part n ≤ pos_part n
  pub resources_read : All (Met (MeetsResource lib.match_string) h.resource_reads) a.resources_read
  pub resources_not_read :
      All (λ r. ¬ Met (MeetsResource lib.match_string) h.resource_reads r) a.resources_not_read
  pub prompts_used : All (Met (MeetsPrompt lib.match_string) h.prompt_gets) a.prompts_used
  pub prompts_not_used :
      All (λ p. ¬ Met (MeetsPrompt lib.match_string) h.prompt_gets p) a.prompts_not_used
  pub call_order : a.call_order ≢ [] → Follows a.call_order (lib.sort_calls (all_calls h))
  pub no_duplicate_calls : a.no_duplicate_calls ≡ true → Distinct (keys h.tool_calls)

-- What each field of a result says, where nothing is said of skills.
record Verdicts (lib : Library) (a : TaskAssertions) (h : CallHistory)
    (r : CompositeAssertionResult) : Type 0 where
  tools_used :
      (succeeded r.tools_used ≡ true)
      ↔ All (Met (MeetsTool lib.match_string) h.tool_calls) a.tools_used
  require_any :
      (succeeded r.require_any ≡ true)
      ↔ (a.require_any ≢ [] → Any (Met (MeetsTool lib.match_string) h.tool_calls) a.require_any)
  tools_not_used :
      (succeeded r.tools_not_used ≡ true)
      ↔ All (λ t. ¬ Met (MeetsTool lib.match_string) h.tool_calls t) a.tools_not_used
  min_tool_calls :
      (succeeded r.min_tool_calls ≡ true)
      ↔ ((n : ℤ) → a.min_tool_calls ≡ some n → pos_part n ≤ length h.tool_calls + neg_part n)
  max_tool_calls :
      (succeeded r.max_tool_calls ≡ true)
      ↔ ((n : ℤ) → a.max_tool_calls ≡ some n → length h.tool_calls + neg_part n ≤ pos_part n)
  resources_read :
      (succeeded r.resources_read ≡ true)
      ↔ All (Met (MeetsResource lib.match_string) h.resource_reads) a.resources_read
  resources_not_read :
      (succeeded r.resources_not_read ≡ true)
      ↔ All (λ r. ¬ Met (MeetsResource lib.match_string) h.resource_reads r) a.resources_not_read
  prompts_used :
      (succeeded r.prompts_used ≡ true)
      ↔ All (Met (MeetsPrompt lib.match_string) h.prompt_gets) a.prompts_used
  prompts_not_used :
      (succeeded r.prompts_not_used ≡ true)
      ↔ All (λ p. ¬ Met (MeetsPrompt lib.match_string) h.prompt_gets p) a.prompts_not_used
  call_order :
      (succeeded r.call_order ≡ true)
      ↔ (a.call_order ≢ [] → Follows a.call_order (lib.sort_calls (all_calls h)))
  no_duplicate_calls :
      (succeeded r.no_duplicate_calls ≡ true)
      ↔ (a.no_duplicate_calls ≡ true → Distinct (keys h.tool_calls))
  skills : (r.skills_loaded ≡ none) × (r.skills_not_loaded ≡ none)

-- All fields succeed if each one does.
each_field :
    (r : CompositeAssertionResult)
    → succeeded r.tools_used ≡ true
    → succeeded r.require_any ≡ true
    → succeeded r.tools_not_used ≡ true
    → succeeded r.min_tool_calls ≡ true
    → succeeded r.max_tool_calls ≡ true
    → succeeded r.resources_read ≡ true
    → succeeded r.resources_not_read ≡ true
    → succeeded r.prompts_used ≡ true
    → succeeded r.prompts_not_used ≡ true
    → succeeded r.call_order ≡ true
    → succeeded r.no_duplicate_calls ≡ true
    → succeeded r.skills_loaded ≡ true
    → succeeded r.skills_not_loaded ≡ true
    → All (λ f. succeeded f ≡ true) (all_fields r)
unfolding all_fields
each_field r a b c d e f g h i j k l m =
    (a, (b, (c, (d, (e, (f, (g, (h, (i, (j, (k, (l, (m, tt)))))))))))))

module _ {lib : Library} {a : TaskAssertions} {h : CallHistory} {r : CompositeAssertionResult}
    (v : Verdicts lib a h r) where
  Satisfied-of : All (λ f. succeeded f ≡ true) (all_fields r) → Satisfied lib a h
  unfolding all_fields
  Satisfied-of (f1, (f2, (f3, (f4, (f5, (f6, (f7, (f8, (f9, (f10, (f11, _))))))))))) = record {
    tools_used = v.tools_used.0 f1;
    require_any = v.require_any.0 f2;
    tools_not_used = v.tools_not_used.0 f3;
    min_tool_calls = v.min_tool_calls.0 f4;
    max_tool_calls = v.max_tool_calls.0 f5;
    resources_read = v.resources_read.0 f6;
    resources_not_read = v.resources_not_read.0 f7;
    prompts_used = v.prompts_used.0 f8;
    prompts_not_used = v.prompts_not_used.0 f9;
    call_order = v.call_order.0 f10;
    no_duplicate_calls = v.no_duplicate_calls.0 f11;
  }

  fields-of-Satisfied : Satisfied lib a h → All (λ f. succeeded f ≡ true) (all_fields r)
  unfolding all_fields succeeded
  fields-of-Satisfied y =
      each_field r (v.tools_used.1 y.tools_used) (v.require_any.1 y.require_any)
        (v.tools_not_used.1 y.tools_not_used) (v.min_tool_calls.1 y.min_tool_calls)
        (v.max_tool_calls.1 y.max_tool_calls) (v.resources_read.1 y.resources_read)
        (v.resources_not_read.1 y.resources_not_read) (v.prompts_used.1 y.prompts_used)
        (v.prompts_not_used.1 y.prompts_not_used) (v.call_order.1 y.call_order)
        (v.no_duplicate_calls.1 y.no_duplicate_calls) (rw (v.skills.0) refl) (rw (v.skills.1) refl)

-- The verdicts of the evaluators, of the order check and of the check for duplicates.
results_of-Verdicts :
    (lib : Library) (a : TaskAssertions) (h : CallHistory) (o d : SingleAssertionResult)
    → ((succeeded (asked a.call_order o) ≡ true)
        ↔ (a.call_order ≢ [] → Follows a.call_order (lib.sort_calls (all_calls h))))
    → ((d.passed ≡ true) ↔ Distinct (keys h.tool_calls))
    → Verdicts lib a h (results_of lib a h o d)
results_of-Verdicts lib a h o d o_iff d_iff =
    let rx = lib.match_string in
    record {
      tools_used =
          asked_iff a.tools_used _ (evaluate_tools_used_iff rx h a.tools_used) (All-none _ _);
      require_any = asked_some_iff a.require_any _ (evaluate_require_any_iff rx h a.require_any);
      tools_not_used =
          asked_iff a.tools_not_used _ (evaluate_tools_not_used_iff rx h a.tools_not_used)
            (All-none _ _);
      min_tool_calls = asked_by_iff a.min_tool_calls _ (λ n. (evaluate_tool_calls_bounds n n h).0);
      max_tool_calls = asked_by_iff a.max_tool_calls _ (λ n. (evaluate_tool_calls_bounds n n h).1);
      resources_read =
          asked_iff a.resources_read _ (evaluate_resources_read_iff rx h a.resources_read)
            (All-none _ _);
      resources_not_read =
          asked_iff a.resources_not_read _
            (evaluate_resources_not_read_iff rx h a.resources_not_read) (All-none _ _);
      prompts_used =
          asked_iff a.prompts_used _ (evaluate_prompts_used_iff rx h a.prompts_used) (All-none _ _);
      prompts_not_used =
          asked_iff a.prompts_not_used _ (evaluate_prompts_not_used_iff rx h a.prompts_not_used)
            (All-none _ _);
      call_order = o_iff;
      no_duplicate_calls = asked_if_iff a.no_duplicate_calls d d_iff;
      skills = (refl, refl);
    }

-- If every tool call has a request, the evaluation of a set of assertions returns a result, which
-- succeeds exactly when the calls meet everything that the set asks for; the skill fields are left nil.
pub evaluate_composite_iff :
    (lib : Library) (a : TaskAssertions) (h : CallHistory)
    → HaveRequests h.tool_calls
    → (r : CompositeAssertionResult) × (evaluate_composite lib (new_composite_evaluator a) h
        ≡ some r)
      × ((composite_succeeded r ≡ true) ↔ Satisfied lib a h)
      × (r.skills_loaded ≡ none)
      × (r.skills_not_loaded ≡ none)
evaluate_composite_iff lib a h have =
    let (o, o_eq, o_iff) = order_result lib.sort_calls a.call_order h in
    let (d, d_eq, d_iff) = returned _ (evaluate_no_duplicates_iff h.tool_calls have) in
    let v = results_of-Verdicts lib a h o d o_iff d_iff in
    let (f, g) = composite_succeeded_iff (results_of lib a h o d) in
    (
      results_of lib a h o d,
      evaluate_composite_fields lib a h o d o_eq (λ _. d_eq),
      (λ s. Satisfied-of v (f s), λ y. g (fields-of-Satisfied v y)),
      refl,
      refl,
    )
