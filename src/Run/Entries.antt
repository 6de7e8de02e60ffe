-- ===== src/Run/Entries.antt =====
-- What one entry of the collected tasks holds, of pkg/eval/runner.go.
use mcpchecker.Prelude.Assoc.{DistinctKeys, lookup}
use mcpchecker.Run.Collect.{Files, collect_task_configs}
use mcpchecker.Label.{TaskSet}
use mathlib.Core.Path.{subst}
use mcpchecker.Run.Collected.{collect_task_configs_places, place_all, set_visits}
use mcpchecker.Prelude.Result.{Result-cases, ok}
use mcpchecker.Run.Selected.{tasks_of, Entries, Visit, new_entry, place, with_more}
use mcpchecker.Prelude.{
  ◌≢◌, Bool-cases, List, Option, String, [], ap, eq_iff, false, if_false, if_true, if◌then◌else◌,
  inl, inr, none, refl, some, str_eq, sym, true, ◌∙◌, ◌∷◌, ◌≡◌,
}
use mcpchecker.Run.{EvalTask}

-- What the visits of one canonical path make, whatever the other visits are: the first gives the task and
-- its path, and all give their assertions.
abbrev pub seen_visit : String → Visit → Option EvalTask → Option EvalTask
seen_visit k v none = if str_eq v.canonical k then some (new_entry v).1 else none
seen_visit k v (some tc) = if str_eq v.canonical k then some (with_more v tc) else some tc

abbrev pub entry_of : String → List Visit → Option EvalTask → Option EvalTask
entry_of k [] o = o
entry_of k (v ∷ vs) o = entry_of k vs (seen_visit k v o)

seen_visit_other :
    (k : String) (v : Visit) (o : Option EvalTask)
    → str_eq v.canonical k ≡ false
    → seen_visit k v o ≡ o
seen_visit_other k v none q = if_false _ q
seen_visit_other k v (some tc) q = if_false _ q

str_differs : (a b : String) → a ≢ b → str_eq a b ≡ false
str_differs a b n = elim (Bool-cases (str_eq a b)) [
  | inl q ↦ absurd (n ((eq_iff a b).0 q))
  | inr q ↦ q
]

lookup-place :
    (k : String) (v : Visit) (m : Entries) → lookup k (place v m) ≡ seen_visit k v (lookup k m)
unfolding lookup
lookup-place k v [] = refl
lookup-place k v ((j, tc) ∷ m) = elim (Bool-cases (str_eq j v.canonical)) [
  | inl q ↦ ap (lookup k) (if_true _ q) ∙ elim (Bool-cases (str_eq j k)) [
    | inl p ↦
        let r : str_eq v.canonical k ≡ true =
          ap (λ i. str_eq i k) (sym ((eq_iff j v.canonical).0 q)) ∙ p in
        if_true _ p ∙ sym (if_true (some tc) r) ∙ ap (seen_visit k v) (sym (if_true _ p))
    | inr p ↦
        let r : str_eq v.canonical k ≡ false =
          ap (λ i. str_eq i k) (sym ((eq_iff j v.canonical).0 q)) ∙ p in
        if_false _ p
        ∙ sym (seen_visit_other k v (lookup k m) r)
        ∙ ap (seen_visit k v) (sym (if_false _ p))
  ]
  | inr q ↦ ap (lookup k) (if_false _ q) ∙ elim (Bool-cases (str_eq j k)) [
    | inl p ↦
        let r : str_eq v.canonical k ≡ false =
          str_differs v.canonical k
            (λ e. cc (q, (eq_iff j v.canonical).1 ((eq_iff j k).0 p ∙ sym e))) in
        if_true _ p ∙ sym (if_false _ r) ∙ ap (seen_visit k v) (sym (if_true _ p))
    | inr p ↦ if_false _ p ∙ lookup-place k v m ∙ ap (seen_visit k v) (sym (if_false _ p))
  ]
]

lookup-place_all :
    (k : String) (vs : List Visit) (m : Entries)
    → lookup k (place_all vs m) ≡ entry_of k vs (lookup k m)
lookup-place_all k [] m = refl
lookup-place_all k (v ∷ vs) m =
    lookup-place_all k vs (place v m) ∙ ap (entry_of k vs) (lookup-place k v m)

place-DistinctKeys : (v : Visit) (m : Entries) → DistinctKeys m → DistinctKeys (place v m)
unfolding lookup
place-DistinctKeys v [] d = (refl, tt)
place-DistinctKeys v ((j, tc) ∷ m) d = elim (Bool-cases (str_eq j v.canonical)) [
  | inl q ↦ subst DistinctKeys (sym (if_true _ q)) d
  | inr q ↦
      let r : str_eq v.canonical j ≡ false =
        str_differs v.canonical j (λ e. cc (q, (eq_iff j v.canonical).1 (sym e))) in
      subst DistinctKeys (sym (if_false _ q))
        (lookup-place j v m ∙ seen_visit_other j v (lookup j m) r ∙ d.0, place-DistinctKeys v m d.1)
]

place_all-DistinctKeys :
    (vs : List Visit) (m : Entries) → DistinctKeys m → DistinctKeys (place_all vs m)
place_all-DistinctKeys [] m d = d
place_all-DistinctKeys (v ∷ vs) m d =
    place_all-DistinctKeys vs (place v m) (place-DistinctKeys v m d)

-- If `collectTaskConfigs` returns tasks, they are entries of distinct canonical paths, and the entry of a
-- path is what the visits of that path make of it: the first one's task and display path, and the
-- assertions of all of them, in order.
pub collect_task_configs_once :
    (f : Files) (sets : List TaskSet) (tasks : List EvalTask)
    → collect_task_configs f sets ≡ some (ok tasks)
    → (vs : List Visit) × (m : Entries) × (set_visits f sets ≡ ok vs)
      × (tasks ≡ tasks_of m)
      × DistinctKeys m
      × ((k : String) → lookup k m ≡ entry_of k vs none)
unfolding lookup
collect_task_configs_once f sets tasks h =
    let p = sym (collect_task_configs_places f sets) ∙ h in
    elim (Result-cases (set_visits f sets)) [
      | inl (e, q) ↦ absurd (cc (rw q at p))
      | inr (vs, q) ↦ (
        vs,
        place_all vs [],
        q,
        cc (rw q at p),
        place_all-DistinctKeys vs [] tt,
        λ k. lookup-place_all k vs [],
      )
    ]
