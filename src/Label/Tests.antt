-- ===== src/Label/Tests.antt =====
-- Runs of the label selector.
use mathlib.Core.Path.{subst}
use mcpchecker.Prelude.Assoc.{insert, lookup}
use mcpchecker.Prelude.Result.{ok}
use mcpchecker.Label.Filter.{filter_task_sets, apply_label_selector_filter, expand_task_set}
use mcpchecker.Label.Requests.{Requests, pairs_of, parse-DistinctKeys, parse_label_selector_iff}
use mathlib.Core.Path.{subst}
use mcpchecker.Label.Expand.{expand_task_set_iff, Compatible, Picks, Wanted}
use mcpchecker.Prelude.{Any, List, String, [], concat, none, refl, some, true, ◌↔◌, ◌∷◌, ◌≡◌}
use mcpchecker.Label.Selection.{Selected, apply_label_selector_filter_selects}
use mcpchecker.Label.{contains_value, Labels, TaskSet}
use mcpchecker.Label.Parse.{
  append_unique, parse_label_selector, parse_pair, parse_pairs, values_of, Requested,
}

abbrev selector : String
selector = " suite=kubernetes, suite = helm ,difficulty=easy,suite=helm"

abbrev requested : Requested
requested = ("suite", "kubernetes" ∷ "helm" ∷ []) ∷ ("difficulty", "easy" ∷ []) ∷ []

parse_runs : parse_label_selector selector ≡ ok requested
unfolding parse_label_selector parse_pair parse_pairs append_unique values_of concat
parse_runs = refl

abbrev set_with : Labels → TaskSet
set_with labels = record {
  glob = "tasks/*.yaml";
  path = "";
  source = "";
  label_selector = labels;
  assertions = none;
}

abbrev sets : List TaskSet
sets = set_with (("suite", "istio") ∷ []) ∷ set_with (("difficulty", "easy") ∷ []) ∷ []

-- The first set is dropped, the second one is copied for each value of the missing key.
filter_runs :
    apply_label_selector_filter (some sets) selector
    ≡ ok (
        set_with (("difficulty", "easy") ∷ ("suite", "kubernetes") ∷ [])
        ∷ set_with (("difficulty", "easy") ∷ ("suite", "helm") ∷ [])
        ∷ [])
unfolding apply_label_selector_filter parse_label_selector parse_pair parse_pairs append_unique
    values_of concat insert lookup contains_value filter_task_sets
filter_runs = refl

parse_label_selector_iff_example :
    Requests requested "suite" "helm"
    ↔ Any (λ pair. parse_pair pair ≡ ok ("suite", "helm")) (pairs_of selector)
parse_label_selector_iff_example =
    parse_label_selector_iff selector requested "suite" "helm" parse_runs

abbrev task : Labels
task = ("difficulty", "easy") ∷ ("suite", "helm") ∷ []

apply_label_selector_filter_selects_example :
    Selected (set_with []) task sets requested (apply_label_selector_filter (some sets) selector)
apply_label_selector_filter_selects_example =
    apply_label_selector_filter_selects (set_with []) task sets selector requested parse_runs

abbrev easy : TaskSet
easy = set_with (("difficulty", "easy") ∷ [])

easy-Compatible : Compatible easy requested
unfolding lookup contains_value
easy-Compatible = (
  λ v e. cc,
  (
    (λ v e.
        let same : "easy" ≡ v = cc in subst (λ x. contains_value ("easy" ∷ []) x ≡ true) same refl),
    tt,
  ),
)

expand_task_set_iff_example :
    Any (Picks (set_with []) task) (expand_task_set easy requested)
    ↔ (Picks (set_with []) task easy × Wanted task requested)
expand_task_set_iff_example =
    expand_task_set_iff (set_with []) task easy requested (parse-DistinctKeys selector parse_runs)
      easy-Compatible
