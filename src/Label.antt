-- ===== src/Label.antt =====
-- pkg/eval/label_selector.go: which task sets and tasks a label selector keeps. A Go map is an
-- association list whose order is the order in which `range` happens to walk it; a nil map is empty.
pub mod Parse
pub mod Filter
pub mod Carries
pub mod Expand
pub mod Selection
pub mod Requests
mod Tests
use mcpchecker.Prelude.Assoc.{insert, lookup}
use mcpchecker.Prelude.{
  String, str_eq, Bool, true, false, not, Option, none, some, List, [], ◌∷◌, if◌then◌else◌,
}
use mcpchecker.Assert.{TaskAssertions}

abbrev pub Labels : Type 0
Labels = List (String × String)

-- `TaskSet` of pkg/eval/config.go.
pub record TaskSet : Type 0 where
  pub glob : String
  pub path : String
  pub source : String
  pub label_selector : Labels
  pub assertions : Option TaskAssertions

unfoldable pub contains_value : List String → String → Bool
contains_value [] target = false
contains_value (v ∷ values) target = if str_eq v target then true else contains_value values target

matches_loop : Labels → Labels → Bool
unfolding lookup
matches_loop task_labels [] = true
matches_loop task_labels ((key, value) ∷ selector) = elim (lookup key task_labels) [
  | none ↦ false
  | some task_value ↦
      if not (str_eq task_value value) then false else matches_loop task_labels selector
]

unfoldable pub matches_label_selector : Labels → Labels → Bool
unfolding matches_loop
matches_label_selector task_labels [] = true
matches_label_selector task_labels (entry ∷ selector) = matches_loop task_labels (entry ∷ selector)
