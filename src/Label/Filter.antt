-- ===== src/Label/Filter.antt =====
-- `ApplyLabelSelectorFilter` of pkg/eval/label_selector.go. The spec is the list of its task sets.
use mcpchecker.Prelude.Assoc.{insert, lookup}
use mcpchecker.Prelude.{
  String, Bool, true, false, not, Option, none, some, List, [], ◌∷◌, ◌++◌, map, if◌then◌else◌,
  concat,
}
use mcpchecker.Prelude.Result.{Result, ok, err, then_ok}
use mcpchecker.Label.{TaskSet, contains_value}
use mcpchecker.Label.Parse.{Requested, parse_label_selector}

-- The loop over the requested labels: a label that the task set has must be one of the values.
unfoldable pub is_compatible : TaskSet → Requested → Bool
is_compatible ts [] = true
is_compatible ts ((key, values) ∷ labels) = elim (lookup key ts.label_selector) [
  | some existing ↦ if not (contains_value values existing) then false else is_compatible ts labels
  | none ↦ is_compatible ts labels
]

-- A copy with one more label, of `copyTaskSet`. The copy's map is its own.
abbrev pub with_label : TaskSet → String → String → TaskSet
with_label ts key value = record ts { label_selector = insert key value ts.label_selector }

-- The two inner loops of `expandTaskSet`.
unfoldable pub expand_key : String → List String → List TaskSet → List TaskSet
expand_key key values [] = []
expand_key key values (r ∷ result) = map (with_label r key) values ++ expand_key key values result

unfoldable pub expand_loop : TaskSet → Requested → List TaskSet → List TaskSet
unfolding expand_key
expand_loop ts [] result = result
expand_loop ts ((key, values) ∷ labels) result =
    expand_loop ts labels (elim (lookup key ts.label_selector) [
      | some existing ↦ result
      | none ↦ expand_key key values result
    ])

unfoldable pub expand_task_set : TaskSet → Requested → List TaskSet
unfolding expand_loop
expand_task_set ts labels = expand_loop ts labels (ts ∷ [])

unfoldable pub filter_task_sets : List TaskSet → Requested → List TaskSet
unfolding is_compatible expand_task_set
filter_task_sets [] labels = []
filter_task_sets (ts ∷ sets) labels =
    let rest = filter_task_sets sets labels in
    if not (is_compatible ts labels) then rest else expand_task_set ts labels ++ rest

-- What is done once the selector is parsed: no labels leave the spec as it is.
unfoldable pub select_sets : String → List TaskSet → Requested → Result (List TaskSet)
select_sets selector sets [] = ok sets
select_sets selector sets (entry ∷ labels) = elim (filter_task_sets sets (entry ∷ labels)) [
  | [] ↦ err (concat ("no taskSets match label selector: " ∷ selector ∷ []))
  | ts ∷ kept ↦ ok (ts ∷ kept)
]

-- A nil spec is `none`.
unfoldable pub apply_label_selector_filter : Option (List TaskSet) → String → Result (List TaskSet)
unfolding select_sets
apply_label_selector_filter none selector = err "eval spec cannot be nil"
apply_label_selector_filter (some sets) selector =
    then_ok (parse_label_selector selector) (select_sets selector sets)
