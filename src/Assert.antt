-- ===== src/Assert.antt =====
-- pkg/eval/assert.go and the assertion types of pkg/eval/config.go: what an eval file demands of the
-- calls that an agent made, and the results of checking it.
pub mod Match
pub mod Order
pub mod Duplicates
pub mod Search
pub mod Result
pub mod Composite
pub mod Skills
pub mod Sets
pub mod Recorded
mod Tests
use mcpchecker.Prelude.{String, Bool, true, Option, none, List}
use mcpchecker.Prelude.Int.{ℤ}

pub record ToolAssertion : Type 0 where
  pub server : String
  pub tool : String
  pub tool_pattern : String

pub record ResourceAssertion : Type 0 where
  pub server : String
  pub uri : String
  pub uri_pattern : String

pub record PromptAssertion : Type 0 where
  pub server : String
  pub prompt : String
  pub prompt_pattern : String

pub record CallOrderAssertion : Type 0 where
  pub type : String
  pub server : String
  pub name : String

pub record SkillAssertion : Type 0 where
  pub skill : String
  pub skill_pattern : String

-- A slice that is nil and one that is empty are the same list; a pointer to an `int` is an option.
pub record TaskAssertions : Type 0 where
  pub tools_used : List ToolAssertion
  pub require_any : List ToolAssertion
  pub tools_not_used : List ToolAssertion
  pub min_tool_calls : Option ℤ
  pub max_tool_calls : Option ℤ
  pub resources_read : List ResourceAssertion
  pub resources_not_read : List ResourceAssertion
  pub prompts_used : List PromptAssertion
  pub prompts_not_used : List PromptAssertion
  pub call_order : List CallOrderAssertion
  pub no_duplicate_calls : Bool
  pub skills_loaded : List SkillAssertion
  pub skills_not_loaded : List SkillAssertion

pub record SingleAssertionResult : Type 0 where
  pub passed : Bool
  pub reason : String
  pub details : List String

-- A nil result is one that was not asked for, and succeeds.
unfoldable pub succeeded : Option SingleAssertionResult → Bool
succeeded none = true
succeeded (Option.some r) = r.passed
