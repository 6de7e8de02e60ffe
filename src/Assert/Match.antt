-- ===== src/Assert/Match.antt =====
-- Which calls an assertion speaks of: `matchesToolAssertion`, `matchesResourceAssertion` and
-- `matchesPromptAssertion` of pkg/eval/assert.go. `regexp.MatchString` is the parameter `Regexp`, the
-- pattern first; `none` is a pattern that does not compile.
use mcpchecker.Prelude.{
  String, str_eq, Bool, true, false, not, ◌&&◌, Option, none, some, if◌then◌else◌, ◌≡◌, ◌≢◌, inl,
  inr, ◌↔◌, arith, eq_iff, Bool-cases,
}
use mcpchecker.Proxy.{ToolCall, ResourceRead, PromptGet}
use mcpchecker.Assert.{ToolAssertion, ResourceAssertion, PromptAssertion}

abbrev pub Regexp : Type 0
Regexp = String → String → Option Bool

-- `matched, _ := regexp.MatchString(…)`: a pattern that does not compile matches nothing.
unfoldable pub matched : Option Bool → Bool
matched none = false
matched (some b) = b

-- The tests on a name that the three functions share.
pub name_matches : Regexp → String → String → String → Bool
unfolding matched
name_matches rx exact pattern_text name =
    if str_eq exact "" && str_eq pattern_text ""
    then true
    else if not (str_eq exact "") && str_eq name exact
    then true
    else if not (str_eq pattern_text "")
    then matched (rx pattern_text name)
    else false

unfoldable pub matches_tool_assertion : Regexp → Option ToolCall → ToolAssertion → Bool
unfolding name_matches
matches_tool_assertion rx none assertion = false
matches_tool_assertion rx (some call) assertion =
    if not (str_eq call.server_name assertion.server)
    then false
    else name_matches rx assertion.tool assertion.tool_pattern call.tool_name

unfoldable pub matches_resource_assertion : Regexp → Option ResourceRead → ResourceAssertion → Bool
unfolding name_matches
matches_resource_assertion rx none assertion = false
matches_resource_assertion rx (some call) assertion =
    if not (str_eq call.server_name assertion.server)
    then false
    else name_matches rx assertion.uri assertion.uri_pattern call.uri

unfoldable pub matches_prompt_assertion : Regexp → Option PromptGet → PromptAssertion → Bool
unfolding name_matches
matches_prompt_assertion rx none assertion = false
matches_prompt_assertion rx (some call) assertion =
    if not (str_eq call.server_name assertion.server)
    then false
    else name_matches rx assertion.prompt assertion.prompt_pattern call.name

-- What the comments on the assertion types promise of a name: an assertion with neither a name nor
-- a pattern takes every name; otherwise the name is the one given, or the pattern matches it.
pub data Admits (rx : Regexp) (exact pattern_text name : String) : Type 0 where
  any_name : exact ≡ "" → pattern_text ≡ "" → Admits rx exact pattern_text name
  exactly : exact ≢ "" → name ≡ exact → Admits rx exact pattern_text name
  by_pattern :
      pattern_text ≢ "" → rx pattern_text name ≡ some true → Admits rx exact pattern_text name

Admits-of-matches :
    (rx : Regexp) (exact pattern_text name : String)
    → name_matches rx exact pattern_text name ≡ true
    → Admits rx exact pattern_text name
unfolding name_matches
Admits-of-matches rx exact pattern_text name h = elim (Bool-cases (str_eq exact "")) [
  | inl no_name ↦ elim (Bool-cases (str_eq pattern_text "")) [
    | inl no_pattern ↦ any_name ((eq_iff _ _).0 no_name) ((eq_iff _ _).0 no_pattern)
    | inr has_pattern ↦ by_pattern (ground (arith, eq_iff pattern_text "")) (ground arith)
  ]
  | inr has_name ↦ elim (Bool-cases (str_eq name exact)) [
    | inl same ↦ exactly (ground (arith, eq_iff exact "")) ((eq_iff _ _).0 same)
    | inr differ ↦ by_pattern (ground (arith, eq_iff pattern_text "")) (ground arith)
  ]
]

matches-of-Admits :
    (rx : Regexp) (exact pattern_text name : String)
    → Admits rx exact pattern_text name
    → name_matches rx exact pattern_text name ≡ true
unfolding name_matches
matches-of-Admits rx exact pattern_text name (any_name e p) =
    ground (arith, eq_iff exact "", eq_iff pattern_text "")
matches-of-Admits rx exact pattern_text name (exactly e p) =
    ground (arith, eq_iff exact "", eq_iff name exact)
matches-of-Admits rx exact pattern_text name (by_pattern p m) =
    ground (arith, eq_iff exact "", eq_iff pattern_text "")

-- The answer of a matcher that first compares the servers.
server_and_name :
    (rx : Regexp) (s t exact pattern_text name : String)
    → ((if not (str_eq s t) then false else name_matches rx exact pattern_text name) ≡ true)
      ↔ ((s ≡ t) × Admits rx exact pattern_text name)
server_and_name rx s t exact pattern_text name = (
  λ h. ((eq_iff s t).0 (ground arith), Admits-of-matches rx exact pattern_text name (ground arith)),
  λ (e, a). rw ((eq_iff s t).1 e) (matches-of-Admits rx exact pattern_text name a),
)

-- A tool call matches an assertion exactly when its server is the assertion's and the assertion
-- admits its tool name.
pub matches_tool_assertion_iff :
    (rx : Regexp) (c : ToolCall) (a : ToolAssertion)
    → (matches_tool_assertion rx (some c) a ≡ true)
      ↔ ((c.server_name ≡ a.server) × Admits rx a.tool a.tool_pattern c.tool_name)
matches_tool_assertion_iff rx c a =
    unfold matches_tool_assertion in server_and_name rx c.server_name a.server _ _ _

-- A resource read matches an assertion exactly when its server is the assertion's and the assertion
-- admits its URI.
pub matches_resource_assertion_iff :
    (rx : Regexp) (c : ResourceRead) (a : ResourceAssertion)
    → (matches_resource_assertion rx (some c) a ≡ true)
      ↔ ((c.server_name ≡ a.server) × Admits rx a.uri a.uri_pattern c.uri)
matches_resource_assertion_iff rx c a =
    unfold matches_resource_assertion in server_and_name rx c.server_name a.server _ _ _

-- A prompt get matches an assertion exactly when its server is the assertion's and the assertion
-- admits its name.
pub matches_prompt_assertion_iff :
    (rx : Regexp) (c : PromptGet) (a : PromptAssertion)
    → (matches_prompt_assertion rx (some c) a ≡ true)
      ↔ ((c.server_name ≡ a.server) × Admits rx a.prompt a.prompt_pattern c.name)
matches_prompt_assertion_iff rx c a =
    unfold matches_prompt_assertion in server_and_name rx c.server_name a.server _ _ _
