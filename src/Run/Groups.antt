-- ===== src/Run/Groups.antt =====
-- `groupTasksByParallelSupport` of pkg/eval/runner.go.
use mathlib.Core.Path.{subst}
use mcpchecker.Prelude.{
  All-append, append-nil, append_assoc, if_false, if_true, All, Bool, Bool-cases, List, [], ap,
  false, if◌then◌else◌, inl, inr, length, refl, sym, true, ◌++◌, ◌∙◌, ◌∷◌, ◌≡◌, ◌⊎◌,
}
use mcpchecker.Run.{EvalTask}

pub record TaskGroup : Type 0 where
  pub tasks : List EvalTask
  pub parallel : Bool

unfoldable pub is_parallel : EvalTask → Bool
is_parallel tc = tc.spec.metadata.parallel

-- The loop over the tasks, over `sequential` and `parallel`.
split_loop : List EvalTask → List EvalTask → List EvalTask → List EvalTask × List EvalTask
split_loop [] sequential parallel = (sequential, parallel)
split_loop (tc ∷ tasks) sequential parallel =
    if is_parallel tc
    then split_loop tasks sequential (parallel ++ tc ∷ [])
    else split_loop tasks (sequential ++ tc ∷ []) parallel

single_groups : List EvalTask → List TaskGroup
single_groups [] = []
single_groups (tc ∷ tasks) = record { tasks = tc ∷ []; parallel = false } ∷ single_groups tasks

parallel_group : List EvalTask → List TaskGroup
parallel_group [] = []
parallel_group (tc ∷ tasks) = record { tasks = tc ∷ tasks; parallel = true } ∷ []

unfoldable pub group_tasks_by_parallel_support : List EvalTask → List TaskGroup
unfolding split_loop single_groups parallel_group
group_tasks_by_parallel_support tasks =
    let (sequential, parallel) = split_loop tasks [] [] in
    single_groups sequential ++ parallel_group parallel

-- The tasks of a kind, in their order.
abbrev pub of_kind : Bool → List EvalTask → List EvalTask
of_kind b [] = []
of_kind true (tc ∷ tasks) =
    let rest = of_kind true tasks in if is_parallel tc then tc ∷ rest else rest
of_kind false (tc ∷ tasks) =
    let rest = of_kind false tasks in if is_parallel tc then rest else tc ∷ rest

abbrev pub all_tasks : List TaskGroup → List EvalTask
all_tasks [] = []
all_tasks (g ∷ groups) = g.tasks ++ all_tasks groups

-- A group of parallel tasks, or of one task that is not.
abbrev pub IsGroup : TaskGroup → Type 0
IsGroup g =
    ((g.parallel ≡ true) × All (λ tc. is_parallel tc ≡ true) g.tasks)
    ⊎ ((g.parallel ≡ false) × (length g.tasks ≡ 1) × All (λ tc. is_parallel tc ≡ false) g.tasks)

split_loop-of_kind :
    (tasks s p : List EvalTask)
    → ((split_loop tasks s p).0 ≡ s ++ of_kind false tasks)
      × ((split_loop tasks s p).1 ≡ p ++ of_kind true tasks)
unfolding split_loop
split_loop-of_kind [] s p = (sym (append-nil s), sym (append-nil p))
split_loop-of_kind (tc ∷ tasks) s p = elim (Bool-cases (is_parallel tc)) [
  | inl q ↦
      let (x, y) = split_loop-of_kind tasks s (p ++ tc ∷ []) in
      rw (split_loop, q) (x, y ∙ append_assoc p (tc ∷ []) (of_kind true tasks))
  | inr q ↦
      let (x, y) = split_loop-of_kind tasks (s ++ tc ∷ []) p in
      rw (split_loop, q) (x ∙ append_assoc s (tc ∷ []) (of_kind false tasks), y)
]

single_groups-tasks : (tasks : List EvalTask) → all_tasks (single_groups tasks) ≡ tasks
unfolding single_groups
single_groups-tasks [] = refl
single_groups-tasks (tc ∷ tasks) = ap (λ l. tc ∷ l) (single_groups-tasks tasks)

parallel_group-tasks : (tasks : List EvalTask) → all_tasks (parallel_group tasks) ≡ tasks
unfolding parallel_group
parallel_group-tasks [] = refl
parallel_group-tasks (tc ∷ tasks) = append-nil (tc ∷ tasks)

all_tasks-append : (gs hs : List TaskGroup) → all_tasks (gs ++ hs) ≡ all_tasks gs ++ all_tasks hs
all_tasks-append [] hs = refl
all_tasks-append (g ∷ gs) hs =
    ap (λ l. g.tasks ++ l) (all_tasks-append gs hs)
    ∙ sym (append_assoc g.tasks (all_tasks gs) (all_tasks hs))

of_kind-All : (b : Bool) (tasks : List EvalTask) → All (λ tc. is_parallel tc ≡ b) (of_kind b tasks)
of_kind-All b [] = tt
of_kind-All true (tc ∷ tasks) = elim (Bool-cases (is_parallel tc)) [
  | inl q ↦
      subst (All (λ tc. is_parallel tc ≡ true)) (sym (if_true _ q)) (q, of_kind-All true tasks)
  | inr q ↦ subst (All (λ tc. is_parallel tc ≡ true)) (sym (if_false _ q)) (of_kind-All true tasks)
]
of_kind-All false (tc ∷ tasks) = elim (Bool-cases (is_parallel tc)) [
  | inl q ↦ subst (All (λ tc. is_parallel tc ≡ false)) (sym (if_true _ q)) (of_kind-All false tasks)
  | inr q ↦
      subst (All (λ tc. is_parallel tc ≡ false)) (sym (if_false _ q)) (q, of_kind-All false tasks)
]

single_groups-IsGroup :
    (tasks : List EvalTask)
    → All (λ tc. is_parallel tc ≡ false) tasks
    → All IsGroup (single_groups tasks)
unfolding single_groups
single_groups-IsGroup [] a = tt
single_groups-IsGroup (tc ∷ tasks) a =
    (inr (refl, refl, (a.0, tt)), single_groups-IsGroup tasks a.1)

parallel_group-IsGroup :
    (tasks : List EvalTask)
    → All (λ tc. is_parallel tc ≡ true) tasks
    → All IsGroup (parallel_group tasks)
unfolding parallel_group
parallel_group-IsGroup [] a = tt
parallel_group-IsGroup (tc ∷ tasks) a = (inl (refl, a), tt)

-- The groups hold the tasks that are not parallel, in their order, and then the parallel ones, in
-- theirs, none twice and none left out; and a group is one task that is not parallel, or parallel tasks.
pub IsGroup-tasks_order :
    (tasks : List EvalTask)
    → (all_tasks (group_tasks_by_parallel_support tasks)
        ≡ of_kind false tasks ++ of_kind true tasks)
      × All IsGroup (group_tasks_by_parallel_support tasks)
unfolding group_tasks_by_parallel_support
IsGroup-tasks_order tasks =
    let (x, y) = split_loop-of_kind tasks [] [] in
    let s = single_groups (split_loop tasks [] []).0 in
    let p = parallel_group (split_loop tasks [] []).1 in
    (
      all_tasks-append s p
          ∙ ap (λ l. l ++ all_tasks p) (single_groups-tasks (split_loop tasks [] []).0 ∙ x)
          ∙ ap (λ l. of_kind false tasks ++ l)
              (parallel_group-tasks (split_loop tasks [] []).1 ∙ y),
      All-append IsGroup s p
          (single_groups-IsGroup (split_loop tasks [] []).0
            (subst (All (λ tc. is_parallel tc ≡ false)) (sym x) (of_kind-All false tasks)))
          (parallel_group-IsGroup (split_loop tasks [] []).1
            (subst (All (λ tc. is_parallel tc ≡ true)) (sym y) (of_kind-All true tasks))),
    )
