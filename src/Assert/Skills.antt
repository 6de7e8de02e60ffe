-- ===== src/Assert/Skills.antt =====
-- The skill assertions of pkg/eval/assert.go, which look at the agent's own tool calls, and
-- `evaluateSkillAssertions` of pkg/eval/runner.go.
use mcpchecker.Agent.{ToolCallSummary}
use text.Mathlib.Text.{find?}
use mcpchecker.Prelude.{
  String, str_eq, Bool, true, false, not, ◌&&◌, Option, none, some, List, [], ◌∷◌, if◌then◌else◌,
  concat, ◌≡◌, ◌≢◌, ◌↔◌, inl, inr, refl, All, arith, Bool-cases, eq_iff,
}
use mcpchecker.Assert.{succeeded, SkillAssertion, TaskAssertions, SingleAssertionResult}
use mcpchecker.Assert.Match.{Regexp, matched}
use mcpchecker.Assert.Order.{pass}
use mcpchecker.Assert.Search.{first_unmet, first_hit, fail_because}
use mcpchecker.Assert.Search.Verdicts.{Met, first_unmet-Met, first_hit-Met, passes_if_none}
use mcpchecker.Assert.Result.{CompositeAssertionResult}
use mcpchecker.Assert.Composite.{Library}

-- `strings.Contains`
abbrev pub contains : String → String → Bool
contains s t = elim (find? s t) [ some _ ↦ true | none ↦ false ]

-- The input of a call, if it has one and it can be serialised.
input_of : Library → ToolCallSummary → Option String
input_of lib tc = elim tc.raw_input [ none ↦ none | some v ↦ lib.marshal_json v ]

unfoldable pub collect_skill_inputs : Library → List ToolCallSummary → String → List String
unfolding input_of
collect_skill_inputs lib [] tool_name = []
collect_skill_inputs lib (tc ∷ tcs) tool_name =
    let rest = collect_skill_inputs lib tcs tool_name in
    if str_eq tc.title tool_name
    then elim (input_of lib tc) [ none ↦ rest | some b ↦ b ∷ rest ]
    else rest

unfoldable pub quoted : String → String
quoted s = concat ("\"" ∷ s ∷ "\"" ∷ [])

unfoldable pub matches_skill_assertion : Regexp → String → SkillAssertion → Bool
unfolding matched
matches_skill_assertion rx input a =
    if not (str_eq a.skill "") && contains input (quoted a.skill)
    then true
    else if not (str_eq a.skill_pattern "")
    then matched (rx a.skill_pattern input)
    else false

unfoldable pub evaluate_skills_loaded :
    Library → List SkillAssertion → List ToolCallSummary → String → SingleAssertionResult
unfolding first_unmet
evaluate_skills_loaded lib items tool_calls tool_name =
    elim (first_unmet (matches_skill_assertion lib.match_string) items
      (collect_skill_inputs lib tool_calls tool_name)) [
        | none ↦ pass
        | some a ↦ fail_because (
            concat
              ("Required skill not loaded: skill=" ∷ a.skill ∷ ", pattern=" ∷ a.skill_pattern ∷ []))
      ]

unfoldable pub evaluate_skills_not_loaded :
    Library → List SkillAssertion → List ToolCallSummary → String → SingleAssertionResult
unfolding first_hit
evaluate_skills_not_loaded lib items tool_calls tool_name =
    elim (first_hit (matches_skill_assertion lib.match_string) items
      (collect_skill_inputs lib tool_calls tool_name)) [
        | none ↦ pass
        | some (a, input) ↦ fail_because (
            concat (
              "Forbidden skill was loaded: skill=" ∷ a.skill ∷ ", pattern=" ∷ a.skill_pattern ∷ []))
      ]

-- `if len(items) > 0 { field = … }`
pub if_any :
    {A : Type 0}
    → List A
    → SingleAssertionResult
    → Option SingleAssertionResult
    → Option SingleAssertionResult
if_any [] got field = field
if_any (a ∷ items) got field = some got

-- `evaluateSkillAssertions`, with the runner's field `skillToolName`.
unfoldable pub evaluate_skill_assertions :
    Library
    → String
    → TaskAssertions
    → List ToolCallSummary
    → CompositeAssertionResult
    → CompositeAssertionResult
unfolding if_any
evaluate_skill_assertions lib tool_name a tool_calls results =
    if str_eq tool_name "" then results else record results {
      skills_loaded =
          if_any a.skills_loaded (evaluate_skills_loaded lib a.skills_loaded tool_calls tool_name)
            results.skills_loaded;
      skills_not_loaded =
          if_any a.skills_not_loaded
            (evaluate_skills_not_loaded lib a.skills_not_loaded tool_calls tool_name)
            results.skills_not_loaded;
    }

-- What a skill assertion asks of a serialised input: it holds the name in quotes, or the pattern
-- matches it.
pub data MeetsSkill (rx : Regexp) (input : String) (a : SkillAssertion) : Type 0 where
  by_name : a.skill ≢ "" → contains input (quoted a.skill) ≡ true → MeetsSkill rx input a
  by_pattern : a.skill_pattern ≢ "" → rx a.skill_pattern input ≡ some true → MeetsSkill rx input a

matches_skill_assertion_iff :
    (rx : Regexp) (input : String) (a : SkillAssertion)
    → (matches_skill_assertion rx input a ≡ true) ↔ MeetsSkill rx input a
unfolding matches_skill_assertion
matches_skill_assertion_iff rx input a = (
  λ h. elim (Bool-cases (not (str_eq a.skill "") && contains input (quoted a.skill))) [
    | inl e ↦ by_name (ground (arith, eq_iff a.skill "")) (ground arith)
    | inr e ↦ by_pattern (ground (arith, eq_iff a.skill_pattern "")) (ground arith)
  ],
  elim [
    | by_name n c ↦ ground (arith, eq_iff a.skill "")
    | by_pattern n m ↦ ground (arith, eq_iff a.skill_pattern "")
  ],
)

module _ (lib : Library) (items : List SkillAssertion) (tcs : List ToolCallSummary)
    (tool : String) where
  -- Required skills: the check passes exactly when every assertion is met by some collected input;
  -- forbidden ones: exactly when no assertion is.
  pub evaluate_skills_iff :
      (((evaluate_skills_loaded lib items tcs tool).passed ≡ true)
        ↔ All (Met (MeetsSkill lib.match_string) (collect_skill_inputs lib tcs tool)) items)
      × (((evaluate_skills_not_loaded lib items tcs tool).passed ≡ true)
          ↔ All
              (λ a. ¬ Met (MeetsSkill lib.match_string) (collect_skill_inputs lib tcs tool) a)
              items)
  unfolding evaluate_skills_loaded evaluate_skills_not_loaded
  evaluate_skills_iff = (
    passes_if_none _ _ (λ a. refl)
        (first_unmet-Met _ _ (matches_skill_assertion_iff lib.match_string) items _),
    passes_if_none _ _ (λ a. refl)
        (first_hit-Met _ _ (matches_skill_assertion_iff lib.match_string) items _),
  )

-- Whether the field of one kind of skill assertion succeeds, where nothing set it before.
pub if_any_iff :
    {A : Type 0} {P : Type 0} (items : List A) (got : SingleAssertionResult)
    → (field : Option SingleAssertionResult) → ((got.passed ≡ true) ↔ P)
    → (items ≡ [] → P)
    → field ≡ none
    → (succeeded (if_any items got field) ≡ true) ↔ P
unfolding if_any succeeded
if_any_iff [] got field v n e = rw e (λ _. n refl, λ _. refl)
if_any_iff (a ∷ items) got field v n e = v
