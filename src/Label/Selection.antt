-- ===== src/Label/Selection.antt =====
-- What `ApplyLabelSelectorFilter` of pkg/eval/label_selector.go keeps: the tasks that the filtered
-- task sets pick, against those that the sets picked before.
use mcpchecker.Prelude.Assoc.{DistinctKeys, lookup}
use mcpchecker.Label.Requests.{parse-DistinctKeys}
use mcpchecker.Prelude.Result.{ok, err, Result}
use mcpchecker.Label.Expand.{Compatible, Picks, Wanted, expand_task_set_iff}
use mcpchecker.Label.Carries.{Carries, Carries-lookup}
use mathlib.Core.Path.{subst}
use mcpchecker.Prelude.{
  Any-append, Any, Bool-cases, List, Option-cases, String, [], concat, inl, inr, refl, some, true,
  ◌↔◌, ◌∷◌, ◌≡◌,
}
use mcpchecker.Label.Filter.{
  apply_label_selector_filter, expand_task_set, filter_task_sets, is_compatible, select_sets,
}
use mcpchecker.Label.{Labels, TaskSet, contains_value}
use mcpchecker.Label.Parse.{parse_label_selector, Requested}

is_compatible_iff :
    (ts : TaskSet) (labels : Requested) → (is_compatible ts labels ≡ true) ↔ Compatible ts labels
unfolding is_compatible
is_compatible_iff ts [] = (λ _. tt, λ _. refl)
is_compatible_iff ts ((k, vs) ∷ labels) =
    let (f, g) = is_compatible_iff ts labels in
    elim (Option-cases (lookup k ts.label_selector)) [
      | inl e ↦ rw (e, is_compatible) (λ h. ((λ v p. cc), f h), λ c. g c.1)
      | inr (w, e) ↦ elim (Bool-cases (contains_value vs w)) [
        | inl q ↦ rw (e, is_compatible, q) (λ h. ((λ v p. cc), f h), λ c. g c.1)
        | inr q ↦ rw (e, is_compatible, q) (λ h. cc, λ c. cc (c.0 w refl))
      ]
    ]

-- A task that a set picks and that has the requested labels shows that the set is compatible.
Wanted-Compatible :
    (task : Labels) (ts : TaskSet) (labels : Requested)
    → Carries task ts.label_selector
    → Wanted task labels
    → Compatible ts labels
Wanted-Compatible task ts [] c w = tt
Wanted-Compatible task ts ((k, vs) ∷ labels) c w = (
  λ v e.
      let (u, p, q) = w.0 in
      let same : u ≡ v = cc (Carries-lookup task ts.label_selector k c e) in
      subst (λ x. contains_value vs x ≡ true) same q,
  Wanted-Compatible task ts labels c w.1,
)

-- Filtering by labels whose keys are distinct: a task is picked by a kept set exactly when an original
-- set picked it and it has one of the requested values of each key.
pub filter_task_sets_iff :
    (base : TaskSet) (task : Labels) (sets : List TaskSet) (labels : Requested)
    → DistinctKeys labels
    → Any (Picks base task) (filter_task_sets sets labels)
      ↔ (Any (Picks base task) sets × Wanted task labels)
unfolding filter_task_sets
filter_task_sets_iff base task [] labels d = (λ h. absurd h, λ h. h.0)
filter_task_sets_iff base task (ts ∷ sets) labels d =
    let (f, g) = filter_task_sets_iff base task sets labels d in
    elim (Bool-cases (is_compatible ts labels)) [
      | inl q ↦
          let (f', g') =
            expand_task_set_iff base task ts labels d ((is_compatible_iff ts labels).0 q) in
          let (f'', g'') =
            Any-append (Picks base task) (expand_task_set ts labels)
              (filter_task_sets sets labels) in
          rw q (
            λ h. elim (f'' h) [ inl y ↦ (inl (f' y).0, (f' y).1) | inr y ↦ (inr (f y).0, (f y).1) ],
            λ (h, w). elim h [ inl y ↦ g'' (inl (g' (y, w))) | inr y ↦ g'' (inr (g (y, w))) ],
          )
      | inr q ↦ rw q (
        λ h. (inr (f h).0, (f h).1),
        λ (h, w). elim h [
          | inl y ↦ cc ((is_compatible_iff ts labels).1 (Wanted-Compatible task ts labels y.1 w))
          | inr y ↦ g (y, w)
        ],
      )
    ]

-- What the filter's result says of a task that is named by `base` and has these labels.
abbrev pub Selected : TaskSet → Labels → List TaskSet → Requested → Result (List TaskSet) → Type 0
Selected base task sets labels (ok kept) =
    Any (Picks base task) kept ↔ (Any (Picks base task) sets × Wanted task labels)
Selected base task sets labels (err m) = ¬ (Any (Picks base task) sets × Wanted task labels)

select_sets-Selected :
    (base : TaskSet) (task : Labels) (selector : String) (sets : List TaskSet) (labels : Requested)
    → DistinctKeys labels
    → Selected base task sets labels (select_sets selector sets labels)
unfolding select_sets
select_sets-Selected base task selector sets [] d = (λ h. (h, tt), λ h. h.0)
select_sets-Selected base task selector sets (kv ∷ labels) d =
    go (filter_task_sets sets (kv ∷ labels)) (filter_task_sets_iff base task sets (kv ∷ labels) d)
  where
    go :
        (kept : List TaskSet)
        → Any (Picks base task) kept ↔ (Any (Picks base task) sets × Wanted task (kv ∷ labels))
        → Selected base task sets (kv ∷ labels) (elim kept [
          | [] ↦ err (concat ("no taskSets match label selector: " ∷ selector ∷ []))
          | ts ∷ kept ↦ ok (ts ∷ kept)
        ])
    go [] f = λ p. f.1 p
    go (ts ∷ kept) f = f

-- If the selector parses: where the filter keeps task sets, a task is picked by one of them exactly when
-- an original set picked it and it has one of the requested values of each key; where the filter fails,
-- no task that a set picked has such labels.
pub apply_label_selector_filter_selects :
    (base : TaskSet) (task : Labels) (sets : List TaskSet) (selector : String) (labels : Requested)
    → parse_label_selector selector ≡ ok labels
    → Selected base task sets labels (apply_label_selector_filter (some sets) selector)
unfolding apply_label_selector_filter
apply_label_selector_filter_selects base task sets selector labels e =
    rw e (select_sets-Selected base task selector sets labels (parse-DistinctKeys selector e))
