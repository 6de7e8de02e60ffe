-- ===== src/Assert/Search/Verdicts.antt =====
-- When the searching evaluators pass, said of the calls and assertions and not of the loops.
use mcpchecker.Prelude.{
  ◌+◌, ◌≤◌, arith, Bool, true, false, Option, none, some, List, [], ◌∷◌, any, ◌≡◌, ◌≢◌, ◌↔◌, String,
  refl, All, Any, Bool-cases, Option-cases, inl, inr,
}
use mcpchecker.Prelude.Int.{ℤ, pos_part, neg_part}
use mcpchecker.Proxy.{ToolCall, ResourceRead, PromptGet, CallHistory}
use mcpchecker.Assert.Order.{pass}
use mcpchecker.Assert.{ℤ, SingleAssertionResult, ToolAssertion, ResourceAssertion, PromptAssertion}
use mcpchecker.Assert.Match.{
  matches_resource_assertion_iff, matches_prompt_assertion_iff, Regexp, Admits,
  matches_tool_assertion_iff,
}
use mcpchecker.Assert.Search.{
  length, evaluate_max_tool_calls, evaluate_prompts_not_used, fail_because, evaluate_prompts_used,
  evaluate_require_any, evaluate_tools_not_used, evaluate_resources_read,
  evaluate_resources_not_read, evaluate_min_tool_calls, find, first_unmet, first_hit,
  evaluate_tools_used,
}

-- What it means that a call meets an assertion, for each kind of call.
abbrev pub MeetsTool : Regexp → ToolCall → ToolAssertion → Type 0
MeetsTool rx c a = (c.server_name ≡ a.server) × Admits rx a.tool a.tool_pattern c.tool_name

abbrev pub MeetsResource : Regexp → ResourceRead → ResourceAssertion → Type 0
MeetsResource rx c a = (c.server_name ≡ a.server) × Admits rx a.uri a.uri_pattern c.uri

abbrev pub MeetsPrompt : Regexp → PromptGet → PromptAssertion → Type 0
MeetsPrompt rx c a = (c.server_name ≡ a.server) × Admits rx a.prompt a.prompt_pattern c.name

-- Some call meets the assertion.
abbrev pub Met : {A C : Type 0} → (C → A → Type 0) → List C → A → Type 0
Met Meets cs a = Any (λ c. Meets c a) cs

module _ {A C : Type 0} (matches : C → A → Bool) (Meets : C → A → Type 0)
    (iff : (c : C) (a : A) → (matches c a ≡ true) ↔ Meets c a) where
  any-Met : (a : A) (cs : List C) → (any (λ c. matches c a) cs ≡ true) ↔ Met Meets cs a
  any-Met a [] = (λ h. cc, λ h. absurd h)
  any-Met a (c ∷ cs) = elim (Bool-cases (matches c a)) [
    | inl h ↦ rw h (λ _. inl ((iff c a).0 h), λ _. refl)
    | inr h ↦ rw h (
      λ e. inr ((any-Met a cs).0 e),
      elim [ inl m ↦ cc ((iff c a).1 m) | inr m ↦ (any-Met a cs).1 m ],
    )
  ]

  find-Met : (a : A) (cs : List C) → (find matches a cs ≡ none) ↔ (¬ Met Meets cs a)
  unfolding find
  find-Met a [] = (λ _ h. h, λ _. refl)
  find-Met a (c ∷ cs) = elim (Bool-cases (matches c a)) [
    | inl h ↦ rw h (λ e. cc, λ n. absurd (n (inl ((iff c a).0 h))))
    | inr h ↦ rw h (
      λ e. elim [ inl m ↦ cc ((iff c a).1 m) | inr m ↦ (find-Met a cs).0 e m ],
      λ n. (find-Met a cs).1 (λ m. n (inr m)),
    )
  ]

  pub first_unmet-Met :
      (items : List A) (cs : List C)
      → (first_unmet matches items cs ≡ none) ↔ All (Met Meets cs) items
  unfolding first_unmet
  first_unmet-Met [] cs = (λ _. tt, λ _. refl)
  first_unmet-Met (a ∷ items) cs = elim (Bool-cases (any (λ c. matches c a) cs)) [
    | inl h ↦ rw h (
      λ e. ((any-Met a cs).0 h, (first_unmet-Met items cs).0 e),
      λ m. (first_unmet-Met items cs).1 m.1,
    )
    | inr h ↦ rw h (λ e. cc, λ m. cc ((any-Met a cs).1 m.0, h))
  ]

  pub first_hit-Met :
      (items : List A) (cs : List C)
      → (first_hit matches items cs ≡ none) ↔ All (λ a. ¬ Met Meets cs a) items
  unfolding first_hit
  first_hit-Met [] cs = (λ _. tt, λ _. refl)
  first_hit-Met (a ∷ items) cs = elim (Option-cases (find matches a cs)) [
    | inl h ↦
        rw (h, first_hit)
          (
            λ e. ((find-Met a cs).0 h, (first_hit-Met items cs).0 e),
            λ m. (first_hit-Met items cs).1 m.1,
          )
    | inr (c, h) ↦ rw (h, first_hit) (λ e. cc, λ m. cc ((find-Met a cs).1 m.0, h))
  ]

  find_sound : (a : A) (cs : List C) {c : C} → find matches a cs ≡ some c → Met Meets cs a
  unfolding find
  find_sound a [] e = cc
  find_sound a (d ∷ cs) {c} e = elim (Bool-cases (matches d a)) [
    | inl h ↦ inl ((iff d a).0 h)
    | inr h ↦ inr (find_sound a cs {c = c} (ground arith))
  ]

  first_hit-Any :
      (items : List A) (cs : List C)
      → (first_hit matches items cs ≢ none) ↔ Any (Met Meets cs) items
  unfolding first_hit
  first_hit-Any [] cs = (λ n. n refl, λ h. absurd h)
  first_hit-Any (a ∷ items) cs = elim (Option-cases (find matches a cs)) [
    | inl h ↦
        rw (h, first_hit)
          (
            λ n. inr ((first_hit-Any items cs).0 n),
            elim [ inl m ↦ absurd ((find-Met a cs).0 h m) | inr m ↦ (first_hit-Any items cs).1 m ],
          )
    | inr (c, h) ↦ rw (h, first_hit) (λ _. inl (find_sound a cs h), λ _ e. cc)
  ]

-- The result of a search that passes if nothing is found, or only if something is.
pub passes_if_none {ℓ} :
    {B : Type ℓ} {P : Type 0} (o : Option B) (f : B → SingleAssertionResult)
    → ((b : B) → (f b).passed ≡ false)
    → (o ≡ none) ↔ P
    → ((elim o as (λ _. SingleAssertionResult) [ none ↦ pass | some b ↦ f b ]).passed ≡ true) ↔ P
passes_if_none none f fails e = (λ _. e.0 refl, λ _. refl)
passes_if_none (some b) f fails e = (λ h. cc (fails b), λ p. cc (e.1 p))

passes_if_some {ℓ} :
    {B : Type ℓ} {P : Type 0} (o : Option B) (f : B → SingleAssertionResult) (why : String)
    → ((b : B) → (f b).passed ≡ true)
    → (o ≢ none) ↔ P
    → ((elim o as (λ _. SingleAssertionResult) [ none ↦ fail_because why | some b ↦ f b ]).passed
        ≡ true)
      ↔ P
passes_if_some none f why passes e = (λ h. cc, λ p. absurd (e.1 p refl))
passes_if_some (some b) f why passes e = (λ h. e.0 (λ x. cc), λ p. passes b)

module _ (rx : Regexp) (h : CallHistory) where
  -- Required tools: the evaluator passes exactly when every assertion is met by some tool call.
  pub evaluate_tools_used_iff :
      (items : List ToolAssertion)
      → ((evaluate_tools_used rx items h).passed ≡ true)
        ↔ All (Met (MeetsTool rx) h.tool_calls) items
  unfolding evaluate_tools_used
  evaluate_tools_used_iff items =
      passes_if_none _ _ (λ a. refl)
        (first_unmet-Met _ (MeetsTool rx) (matches_tool_assertion_iff rx) items h.tool_calls)

  -- Alternative tools: the evaluator passes exactly when some assertion is met by some tool call.
  pub evaluate_require_any_iff :
      (items : List ToolAssertion)
      → ((evaluate_require_any rx items h).passed ≡ true)
        ↔ Any (Met (MeetsTool rx) h.tool_calls) items
  unfolding evaluate_require_any
  evaluate_require_any_iff items =
      passes_if_some _ _ _ (λ a. refl)
        (first_hit-Any _ (MeetsTool rx) (matches_tool_assertion_iff rx) items h.tool_calls)

  -- Forbidden tools: the evaluator passes exactly when no assertion is met by any tool call.
  pub evaluate_tools_not_used_iff :
      (items : List ToolAssertion)
      → ((evaluate_tools_not_used rx items h).passed ≡ true)
        ↔ All (λ a. ¬ Met (MeetsTool rx) h.tool_calls a) items
  unfolding evaluate_tools_not_used
  evaluate_tools_not_used_iff items =
      passes_if_none _ _ (λ a. refl)
        (first_hit-Met _ (MeetsTool rx) (matches_tool_assertion_iff rx) items h.tool_calls)

  -- Required resources: the evaluator passes exactly when every assertion is met by some read.
  pub evaluate_resources_read_iff :
      (items : List ResourceAssertion)
      → ((evaluate_resources_read rx items h).passed ≡ true)
        ↔ All (Met (MeetsResource rx) h.resource_reads) items
  unfolding evaluate_resources_read
  evaluate_resources_read_iff items =
      passes_if_none _ _ (λ a. refl)
        (first_unmet-Met _ (MeetsResource rx) (matches_resource_assertion_iff rx) items
          h.resource_reads)

  -- Forbidden resources: the evaluator passes exactly when no assertion is met by any read.
  pub evaluate_resources_not_read_iff :
      (items : List ResourceAssertion)
      → ((evaluate_resources_not_read rx items h).passed ≡ true)
        ↔ All (λ a. ¬ Met (MeetsResource rx) h.resource_reads a) items
  unfolding evaluate_resources_not_read
  evaluate_resources_not_read_iff items =
      passes_if_none _ _ (λ a. refl)
        (first_hit-Met _ (MeetsResource rx) (matches_resource_assertion_iff rx) items
          h.resource_reads)

  -- Required prompts: the evaluator passes exactly when every assertion is met by some prompt get.
  pub evaluate_prompts_used_iff :
      (items : List PromptAssertion)
      → ((evaluate_prompts_used rx items h).passed ≡ true)
        ↔ All (Met (MeetsPrompt rx) h.prompt_gets) items
  unfolding evaluate_prompts_used
  evaluate_prompts_used_iff items =
      passes_if_none _ _ (λ a. refl)
        (first_unmet-Met _ (MeetsPrompt rx) (matches_prompt_assertion_iff rx) items h.prompt_gets)

  -- Forbidden prompts: the evaluator passes exactly when no assertion is met by any prompt get.
  pub evaluate_prompts_not_used_iff :
      (items : List PromptAssertion)
      → ((evaluate_prompts_not_used rx items h).passed ≡ true)
        ↔ All (λ a. ¬ Met (MeetsPrompt rx) h.prompt_gets a) items
  unfolding evaluate_prompts_not_used
  evaluate_prompts_not_used_iff items =
      passes_if_none _ _ (λ a. refl)
        (first_hit-Met _ (MeetsPrompt rx) (matches_prompt_assertion_iff rx) items h.prompt_gets)

-- The bounds on the number of tool calls: the lower bound's evaluator passes exactly when there are
-- at least `min` calls, the upper bound's exactly when there are at most `max`, negative bounds
-- included.
pub evaluate_tool_calls_bounds :
    (min max : ℤ) (h : CallHistory)
    → (((evaluate_min_tool_calls min h).passed ≡ true)
        ↔ (pos_part min ≤ length h.tool_calls + neg_part min))
      × (((evaluate_max_tool_calls max h).passed ≡ true)
          ↔ (length h.tool_calls + neg_part max ≤ pos_part max))
unfolding evaluate_min_tool_calls evaluate_max_tool_calls
evaluate_tool_calls_bounds min max h =
    ((λ e. ground arith, λ e. ground arith), (λ e. ground arith, λ e. ground arith))
