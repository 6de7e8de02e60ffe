-- ===== src/Assert/Composite/Fields.antt =====
-- What `Evaluate` returns, field by field, and when it succeeds.
use mcpchecker.Prelude.{
  Bool, true, false, refl, ◌∙◌, ◌≢◌, if◌then◌else◌, Option, none, some, List, [], ◌∷◌, ◌++◌, ◌≡◌,
  ap, arith,
}
use mcpchecker.Prelude.Int.{ℤ, pos}
use mcpchecker.Proxy.{CallHistory}
use mcpchecker.Assert.{TaskAssertions, SingleAssertionResult}
use mcpchecker.Assert.Result.{CompositeAssertionResult}
use mcpchecker.Assert.Composite.{
  evaluate_prompts_not_used, evaluate_prompts_used, evaluate_resources_not_read,
  evaluate_resources_read, evaluate_max_tool_calls, evaluate_min_tool_calls, no_results,
  evaluate_tools_not_used, evaluate_no_duplicates, evaluate_call_order, evaluate_require_any,
  evaluate_tools_used, new_composite_evaluator, if_set, evaluate_composite, Library, Evaluator,
  tools_used, require_any, tools_not_used, min_tool_calls, max_tool_calls, resources_read,
  resources_not_read, prompts_used, prompts_not_used, call_order, no_duplicate_calls,
  evaluate_single, assign, evaluate_loop, if_any,
}

-- The field of an evaluator.
abbrev field_of : Evaluator → CompositeAssertionResult → Option SingleAssertionResult
field_of (tools_used _) r = r.tools_used
field_of (require_any _) r = r.require_any
field_of (tools_not_used _) r = r.tools_not_used
field_of (min_tool_calls _) r = r.min_tool_calls
field_of (max_tool_calls _) r = r.max_tool_calls
field_of (resources_read _) r = r.resources_read
field_of (resources_not_read _) r = r.resources_not_read
field_of (prompts_used _) r = r.prompts_used
field_of (prompts_not_used _) r = r.prompts_not_used
field_of (call_order _) r = r.call_order
field_of no_duplicate_calls r = r.no_duplicate_calls

-- An evaluator that is left out leaves its field nil.
assign-none :
    (e : Evaluator) (r : CompositeAssertionResult) → field_of e r ≡ none → r ≡ assign e none r
unfolding assign
assign-none (tools_used _) r h = ground arith
assign-none _ r h = ground arith

-- What one kind of assertion contributes: nothing where the file does not ask for it.
abbrev pub asked {ℓ} : {A : Type ℓ} {B : Type 0} → List A → B → Option B
asked [] b = none
asked (a ∷ items) b = some b

abbrev pub asked_by {ℓ} : {A : Type ℓ} {B : Type 0} → Option A → (A → B) → Option B
asked_by none f = none
asked_by (some a) f = some (f a)

module _ (lib : Library) (h : CallHistory) where
  loop-if_any :
      {A : Type 0} (items : List A) (make : List A → Evaluator) (rest : List Evaluator)
      → (res : CompositeAssertionResult) (got : SingleAssertionResult)
      → (items ≢ [] → evaluate_single lib h (make items) ≡ some got)
      → field_of (make items) res ≡ none
      → evaluate_loop lib h (if_any items make ++ rest) res
        ≡ evaluate_loop lib h rest (assign (make items) (asked items got) res)
  unfolding if_any evaluate_loop
  loop-if_any [] make rest res got e f = ap (evaluate_loop lib h rest) (assign-none (make []) res f)
  loop-if_any (a ∷ items) make rest res got e f = rw (e (λ p. cc))

  loop-if_set :
      (bound : Option ℤ) (make : ℤ → Evaluator) (rest : List Evaluator)
      → (res : CompositeAssertionResult) (f : ℤ → SingleAssertionResult)
      → ((n : ℤ) → evaluate_single lib h (make n) ≡ some (f n))
      → field_of (make (pos 0)) res ≡ none
      → ((n : ℤ) (o : Option SingleAssertionResult)
          → assign (make n) o res ≡ assign (make (pos 0)) o res)
      → evaluate_loop lib h (if_set bound make ++ rest) res
        ≡ evaluate_loop lib h rest (assign (make (pos 0)) (asked_by bound f) res)
  unfolding if_set evaluate_loop
  loop-if_set none make rest res f e k same =
      ap (evaluate_loop lib h rest) (assign-none (make (pos 0)) res k)
  loop-if_set (some n) make rest res f e k same =
      rw (e n) (ap (evaluate_loop lib h rest) (same n (some (f n))))

  loop-last :
      (b : Bool) (res : CompositeAssertionResult) (got : SingleAssertionResult)
      → (b ≡ true → evaluate_single lib h no_duplicate_calls ≡ some got)
      → res.no_duplicate_calls ≡ none
      → evaluate_loop lib h (if b then no_duplicate_calls ∷ [] else []) res
        ≡ some (assign no_duplicate_calls (if b then some got else none) res)
  unfolding evaluate_loop
  loop-last true res got e f = rw (e refl)
  loop-last false res got e f = ap some (assign-none no_duplicate_calls res f)

-- The results of the evaluators that an eval file asks for, each in its field.
abbrev pub results_of :
    Library
    → TaskAssertions
    → CallHistory
    → SingleAssertionResult
    → SingleAssertionResult
    → CompositeAssertionResult
results_of lib a h ordered unrepeated =
    let rx = lib.match_string in
    record {
      tools_used = asked a.tools_used (evaluate_tools_used rx a.tools_used h);
      require_any = asked a.require_any (evaluate_require_any rx a.require_any h);
      tools_not_used = asked a.tools_not_used (evaluate_tools_not_used rx a.tools_not_used h);
      min_tool_calls = asked_by a.min_tool_calls (λ n. evaluate_min_tool_calls n h);
      max_tool_calls = asked_by a.max_tool_calls (λ n. evaluate_max_tool_calls n h);
      resources_read = asked a.resources_read (evaluate_resources_read rx a.resources_read h);
      resources_not_read =
          asked a.resources_not_read (evaluate_resources_not_read rx a.resources_not_read h);
      prompts_used = asked a.prompts_used (evaluate_prompts_used rx a.prompts_used h);
      prompts_not_used =
          asked a.prompts_not_used (evaluate_prompts_not_used rx a.prompts_not_used h);
      call_order = asked a.call_order ordered;
      no_duplicate_calls = if a.no_duplicate_calls then some unrepeated else none;
      skills_loaded = none;
      skills_not_loaded = none;
    }

-- If the checks of the call order and of duplicates return where they are asked for, the evaluation
-- returns, each field holds its own evaluator's result where the file asks for it, and every other
-- field is nil.
pub evaluate_composite_fields :
    (lib : Library) (a : TaskAssertions) (h : CallHistory)
    (ordered unrepeated : SingleAssertionResult)
    → (a.call_order ≢ [] → evaluate_call_order lib.sort_calls a.call_order h ≡ some ordered)
    → (a.no_duplicate_calls ≡ true → evaluate_no_duplicates h.tool_calls ≡ some unrepeated)
    → evaluate_composite lib (new_composite_evaluator a) h
      ≡ some (results_of lib a h ordered unrepeated)
unfolding evaluate_composite new_composite_evaluator
evaluate_composite_fields lib a h ordered unrepeated o d =
    loop-if_any lib h a.tools_used tools_used _ no_results _ (λ _. refl) refl
    ∙ loop-if_any lib h a.require_any require_any _ _ _ (λ _. refl) refl
    ∙ loop-if_any lib h a.tools_not_used tools_not_used _ _ _ (λ _. refl) refl
    ∙ loop-if_set lib h a.min_tool_calls min_tool_calls _ _ _ (λ _. refl) refl (λ _ _. refl)
    ∙ loop-if_set lib h a.max_tool_calls max_tool_calls _ _ _ (λ _. refl) refl (λ _ _. refl)
    ∙ loop-if_any lib h a.resources_read resources_read _ _ _ (λ _. refl) refl
    ∙ loop-if_any lib h a.resources_not_read resources_not_read _ _ _ (λ _. refl) refl
    ∙ loop-if_any lib h a.prompts_used prompts_used _ _ _ (λ _. refl) refl
    ∙ loop-if_any lib h a.prompts_not_used prompts_not_used _ _ _ (λ _. refl) refl
    ∙ loop-if_any lib h a.call_order call_order _ _ ordered o refl
    ∙ loop-last lib h a.no_duplicate_calls _ unrepeated d refl
