-- ===== src/Assert/Result.antt =====
-- `CompositeAssertionResult` of pkg/eval/assert.go: one optional result for each kind of assertion,
-- its counts, and `Merge`.
pub mod Laws
use mcpchecker.Prelude.{
  ℕ, ◌+◌, ◌-◌, String, str_eq, Bool, true, false, not, ◌&&◌, Option, none, some, List, [], ◌∷◌,
  ◌++◌, if◌then◌else◌, suc,
}
use mcpchecker.Assert.{SingleAssertionResult, succeeded}

pub record CompositeAssertionResult : Type 0 where
  pub tools_used : Option SingleAssertionResult
  pub require_any : Option SingleAssertionResult
  pub tools_not_used : Option SingleAssertionResult
  pub min_tool_calls : Option SingleAssertionResult
  pub max_tool_calls : Option SingleAssertionResult
  pub resources_read : Option SingleAssertionResult
  pub resources_not_read : Option SingleAssertionResult
  pub prompts_used : Option SingleAssertionResult
  pub prompts_not_used : Option SingleAssertionResult
  pub call_order : Option SingleAssertionResult
  pub no_duplicate_calls : Option SingleAssertionResult
  pub skills_loaded : Option SingleAssertionResult
  pub skills_not_loaded : Option SingleAssertionResult

-- `&CompositeAssertionResult{}`
abbrev pub no_results : CompositeAssertionResult
no_results = record {
  tools_used = none;
  require_any = none;
  tools_not_used = none;
  min_tool_calls = none;
  max_tool_calls = none;
  resources_read = none;
  resources_not_read = none;
  prompts_used = none;
  prompts_not_used = none;
  call_order = none;
  no_duplicate_calls = none;
  skills_loaded = none;
  skills_not_loaded = none;
}

unfoldable pub all_fields : CompositeAssertionResult → List (Option SingleAssertionResult)
all_fields c =
    c.tools_used ∷ c.require_any ∷ c.tools_not_used ∷ c.min_tool_calls ∷ c.max_tool_calls
    ∷ c.resources_read ∷ c.resources_not_read ∷ c.prompts_used ∷ c.prompts_not_used ∷ c.call_order
    ∷ c.no_duplicate_calls ∷ c.skills_loaded ∷ c.skills_not_loaded ∷ []

all_succeeded : List (Option SingleAssertionResult) → Bool
all_succeeded [] = true
all_succeeded (f ∷ fs) = if not (succeeded f) then false else all_succeeded fs

unfoldable pub composite_succeeded : CompositeAssertionResult → Bool
unfolding all_fields all_succeeded succeeded
composite_succeeded c = all_succeeded (all_fields c)

is_some : Option SingleAssertionResult → Bool
is_some none = false
is_some (some r) = true

count_total : ℕ → List (Option SingleAssertionResult) → ℕ
unfolding is_some
count_total n [] = n
count_total n (f ∷ fs) = count_total (if is_some f then n + 1 else n) fs

count_passed : ℕ → List (Option SingleAssertionResult) → ℕ
unfolding is_some succeeded
count_passed n [] = n
count_passed n (f ∷ fs) = count_passed (if is_some f && succeeded f then n + 1 else n) fs

unfoldable pub total_assertions : CompositeAssertionResult → ℕ
unfolding all_fields count_total
total_assertions c = count_total 0 (all_fields c)

unfoldable pub passed_assertions : CompositeAssertionResult → ℕ
unfolding all_fields count_passed
passed_assertions c = count_passed 0 (all_fields c)

unfoldable pub failed_assertions : CompositeAssertionResult → ℕ
unfolding total_assertions passed_assertions
failed_assertions c = total_assertions c - passed_assertions c

-- A reason goes into the merged details if it is not empty.
reason_line : String → List String
reason_line s = if not (str_eq s "") then s ∷ [] else []

both : SingleAssertionResult → SingleAssertionResult → SingleAssertionResult
unfolding reason_line
both x y =
    if not x.passed && not y.passed
    then record {
      passed = false;
      reason = "multiple assertion failures";
      details = reason_line x.reason ++ (x.details ++ (reason_line y.reason ++ y.details));
    }
    else if not x.passed
    then x
    else if not y.passed
    then y
    else x

unfoldable pub merge_field :
    Option SingleAssertionResult → Option SingleAssertionResult → Option SingleAssertionResult
unfolding both
merge_field none y = y
merge_field (some x) none = some x
merge_field (some x) (some y) = some (both x y)

-- `Merge` of two results that are there.
pub merge_fields : CompositeAssertionResult → CompositeAssertionResult → CompositeAssertionResult
unfolding merge_field
merge_fields c d = record {
  tools_used = merge_field c.tools_used d.tools_used;
  require_any = merge_field c.require_any d.require_any;
  tools_not_used = merge_field c.tools_not_used d.tools_not_used;
  min_tool_calls = merge_field c.min_tool_calls d.min_tool_calls;
  max_tool_calls = merge_field c.max_tool_calls d.max_tool_calls;
  resources_read = merge_field c.resources_read d.resources_read;
  resources_not_read = merge_field c.resources_not_read d.resources_not_read;
  prompts_used = merge_field c.prompts_used d.prompts_used;
  prompts_not_used = merge_field c.prompts_not_used d.prompts_not_used;
  call_order = merge_field c.call_order d.call_order;
  no_duplicate_calls = merge_field c.no_duplicate_calls d.no_duplicate_calls;
  skills_loaded = merge_field c.skills_loaded d.skills_loaded;
  skills_not_loaded = merge_field c.skills_not_loaded d.skills_not_loaded;
}

-- `Merge`: the receiver and the argument may be nil.
unfoldable pub merge :
    Option CompositeAssertionResult
    → Option CompositeAssertionResult
    → Option CompositeAssertionResult
unfolding merge_fields
merge none other = other
merge (some c) none = some c
merge (some c) (some d) = some (merge_fields c d)
