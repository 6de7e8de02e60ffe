-- ===== src/Assert/Search.antt =====
-- The evaluators of pkg/eval/assert.go that look for calls: required, alternative and forbidden
-- tools, resources and prompts, and the bounds on the number of tool calls.
pub mod Verdicts
use mcpchecker.Prelude.{
  ℕ, String, Bool, true, false, Option, none, some, List, [], ◌∷◌, if◌then◌else◌, any, length,
  show_ℕ, concat,
}
use mcpchecker.Prelude.Int.{ℤ, pos, ltb_ℤ, show_ℤ}
use mcpchecker.Proxy.{ToolCall, ResourceRead, PromptGet, CallHistory}
use mcpchecker.Assert.{ToolAssertion, ResourceAssertion, PromptAssertion, SingleAssertionResult}
use mcpchecker.Assert.Match.{
  Regexp, matches_tool_assertion, matches_resource_assertion, matches_prompt_assertion,
}
use mcpchecker.Assert.Order.{pass}

module _ {A C : Type 0} (matches : C → A → Bool) where
  -- The inner loop of a search: the first call that matches.
  pub find : A → List C → Option C
  find a [] = none
  find a (c ∷ cs) = if matches c a then some c else find a cs

  -- The loops of `toolsUsed`, `resourcesRead` and `promptsUsed`: the first assertion that no call
  -- meets, at which they return.
  unfoldable pub first_unmet : List A → List C → Option A
  first_unmet [] cs = none
  first_unmet (a ∷ items) cs = if any (λ c. matches c a) cs then first_unmet items cs else some a

  -- The loops of the others: the first assertion with a call that matches it, and that call.
  unfoldable pub first_hit : List A → List C → Option (A × C)
  unfolding find
  first_hit [] cs = none
  first_hit (a ∷ items) cs = elim (find a cs) [ some c ↦ some (a, c) | none ↦ first_hit items cs ]

abbrev pub fail_because : String → SingleAssertionResult
fail_because why = record { passed = false; reason = why; details = [] }

unfoldable pub evaluate_tools_used :
    Regexp → List ToolAssertion → CallHistory → SingleAssertionResult
unfolding first_unmet
evaluate_tools_used rx assertions h =
    elim (first_unmet (λ c. matches_tool_assertion rx (some c)) assertions h.tool_calls) [
      | none ↦ pass
      | some a ↦ fail_because (
          concat (
            "Required tool not called: server=" ∷ a.server ∷ ", tool=" ∷ a.tool ∷ ", pattern="
            ∷ a.tool_pattern ∷ []))
    ]

unfoldable pub evaluate_require_any :
    Regexp → List ToolAssertion → CallHistory → SingleAssertionResult
unfolding first_hit
evaluate_require_any rx assertions h =
    elim (first_hit (λ c. matches_tool_assertion rx (some c)) assertions h.tool_calls) [
      | none ↦ fail_because "None of the required tools were called"
      | some (a, c) ↦ record {
        passed = true;
        reason = "";
        details = concat ("Found server=" ∷ c.server_name ∷ ", tool=" ∷ c.tool_name ∷ []) ∷ [];
      }
    ]

unfoldable pub evaluate_tools_not_used :
    Regexp → List ToolAssertion → CallHistory → SingleAssertionResult
unfolding first_hit
evaluate_tools_not_used rx assertions h =
    elim (first_hit (λ c. matches_tool_assertion rx (some c)) assertions h.tool_calls) [
      | none ↦ pass
      | some (a, c) ↦ record {
        passed = false;
        reason = "";
        details =
            concat
              ("Forbidden tool was called: server=" ∷ c.server_name ∷ ", tool=" ∷ c.tool_name ∷ [])
            ∷ [];
      }
    ]

unfoldable pub evaluate_min_tool_calls : ℤ → CallHistory → SingleAssertionResult
evaluate_min_tool_calls min h =
    if ltb_ℤ (pos (length h.tool_calls)) min
    then fail_because (
        concat (
          "Too few tool calls: expected >= "
          ∷ show_ℤ min
          ∷ ", got "
          ∷ show_ℕ (length h.tool_calls)
          ∷ []))
    else pass

unfoldable pub evaluate_max_tool_calls : ℤ → CallHistory → SingleAssertionResult
evaluate_max_tool_calls max h =
    if ltb_ℤ max (pos (length h.tool_calls))
    then fail_because (
        concat (
          "Too many tool calls: expected <= "
          ∷ show_ℤ max
          ∷ ", got "
          ∷ show_ℕ (length h.tool_calls)
          ∷ []))
    else pass

unfoldable pub evaluate_resources_read :
    Regexp → List ResourceAssertion → CallHistory → SingleAssertionResult
unfolding first_unmet
evaluate_resources_read rx assertions h =
    elim (first_unmet (λ c. matches_resource_assertion rx (some c)) assertions h.resource_reads) [
      | none ↦ pass
      | some a ↦ fail_because (
          concat (
            "Required resource not read: server=" ∷ a.server ∷ ", uri=" ∷ a.uri ∷ ", pattern="
            ∷ a.uri_pattern ∷ []))
    ]

unfoldable pub evaluate_resources_not_read :
    Regexp → List ResourceAssertion → CallHistory → SingleAssertionResult
unfolding first_hit
evaluate_resources_not_read rx assertions h =
    elim (first_hit (λ c. matches_resource_assertion rx (some c)) assertions h.resource_reads) [
      | none ↦ pass
      | some (a, c) ↦
          fail_because
            (concat ("Forbidden resource read: server=" ∷ a.server ∷ ", uri=" ∷ c.uri ∷ []))
    ]

unfoldable pub evaluate_prompts_used :
    Regexp → List PromptAssertion → CallHistory → SingleAssertionResult
unfolding first_unmet
evaluate_prompts_used rx assertions h =
    elim (first_unmet (λ c. matches_prompt_assertion rx (some c)) assertions h.prompt_gets) [
      | none ↦ pass
      | some a ↦ fail_because (
          concat (
            "Required prompt not used: server=" ∷ a.server ∷ ", prompt=" ∷ a.prompt ∷ ", pattern="
            ∷ a.prompt_pattern ∷ []))
    ]

unfoldable pub evaluate_prompts_not_used :
    Regexp → List PromptAssertion → CallHistory → SingleAssertionResult
unfolding first_hit
evaluate_prompts_not_used rx assertions h =
    elim (first_hit (λ c. matches_prompt_assertion rx (some c)) assertions h.prompt_gets) [
      | none ↦ pass
      | some (a, c) ↦
          fail_because
            (concat ("Forbidden prompt used: server=" ∷ a.server ∷ ", prompt=" ∷ c.name ∷ []))
    ]
