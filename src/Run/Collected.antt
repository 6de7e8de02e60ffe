-- ===== src/Run/Collected.antt =====
-- That `collectTaskConfigs` of pkg/eval/runner.go never indexes out of range, and what it returns.
use mcpchecker.Prelude.Assoc.{lookup}
use mathlib.Core.Path.{subst}
use mcpchecker.Task.{TaskConfig}
use mcpchecker.Label.{TaskSet}
use mcpchecker.Run.Selected.{tasks_of, select_task-Shows, Entries, Shows, Visit, place}
use mcpchecker.Run.Collect.{
  collect_task_configs, no_tasks, sets_loop, task_of, load_error, wrong_kind, Collected, Files,
  Loaded, canonical_path, is_selected, paths_loop, set_paths,
}
use mcpchecker.Run.Timeouts.{answer}
use mcpchecker.Prelude.Result.{Result-cases, Result, err, ok, then_ok}
use mcpchecker.Prelude.{
  ap, sym, Bool-cases, List, Option, String, [], concat, false, inl, inr, refl, some, true, ◌++◌,
  ◌∷◌, ◌≡◌, ◌⊎◌,
}

-- The tasks that a set selects, in order, up to the first error.
abbrev pub path_visits : Files → TaskSet → List String → Result (List Visit)
path_visits f ts [] = ok []
path_visits f ts (path ∷ paths) =
    let rest = path_visits f ts paths in
    elim (f.from_file path) [
      | wrong_kind ↦ rest
      | load_error e ↦ err (concat ("failed to load task at path " ∷ path ∷ ": " ∷ e ∷ []))
      | task_of spec ↦ elim (is_selected f ts spec) [
        | false ↦ rest
        | true ↦ then_ok rest (λ vs. ok (
            record {
              canonical = canonical_path f path;
              display = f.clean path;
              spec = spec;
              assertions = ts.assertions;
            }
            ∷ vs))
      ]
    ]

abbrev pub set_visits : Files → List TaskSet → Result (List Visit)
set_visits f [] = ok []
set_visits f (ts ∷ sets) =
    let rest = set_visits f sets in
    then_ok (set_paths f ts)
      (λ paths. then_ok (path_visits f ts paths) (λ vs. then_ok rest (λ ws. ok (vs ++ ws))))

abbrev pub place_all : List Visit → Entries → Entries
place_all [] m = m
place_all (v ∷ vs) m = place_all vs (place v m)

place_all-append :
    (vs ws : List Visit) (m : Entries) → place_all (vs ++ ws) m ≡ place_all ws (place_all vs m)
place_all-append [] ws m = refl
place_all-append (v ∷ vs) ws m = place_all-append vs ws (place v m)

-- The answer of a loop against the visits that it makes: the same error, or the visits placed.
abbrev Answers : Entries → Result (List Visit) → Option (Result Collected) → Type 0
Answers m (err e) answer = answer ≡ some (err e)
Answers m (ok vs) answer = (c : Collected) × (answer ≡ some (ok c)) × Shows c (place_all vs m)

first_visit :
    (v : Visit) (m : Entries) (rest : Result (List Visit)) (answer : Option (Result Collected))
    → Answers (place v m) rest answer
    → Answers m (then_ok rest (λ vs. ok (v ∷ vs))) answer
first_visit v m (ok vs) answer a = a
first_visit v m (err e) answer a = a

paths_loop-Answers :
    (f : Files) (ts : TaskSet) (paths : List String) (c : Collected) (m : Entries)
    → Shows c m
    → Answers m (path_visits f ts paths) (paths_loop f ts paths c)
unfolding paths_loop
paths_loop-Answers f ts [] c m s = (c, refl, s)
paths_loop-Answers f ts (path ∷ paths) c m s = elim (Loaded-cases (f.from_file path)) [
  | inl e ↦ rw (paths_loop, path_visits, e) (paths_loop-Answers f ts paths c m s)
  | inr (inl (x, e)) ↦ rw (paths_loop, path_visits, e) refl
  | inr (inr (spec, e)) ↦ elim (Bool-cases (is_selected f ts spec)) [
    | inl q ↦
        let v : Visit = record {
          canonical = canonical_path f path;
          display = f.clean path;
          spec = spec;
          assertions = ts.assertions;
        } in
        let (next, e', s') = select_task-Shows v c m s in
        rw (paths_loop, path_visits, e, q)
          (rw e' (
            first_visit v m (path_visits f ts paths) (paths_loop f ts paths next)
              (paths_loop-Answers f ts paths next (place v m) s')))
    | inr q ↦ rw (paths_loop, path_visits, e, q) (paths_loop-Answers f ts paths c m s)
  ]
]
  where
    Loaded-cases :
        (l : Loaded)
        → (l ≡ wrong_kind)
          ⊎ ((e : String) × (l ≡ load_error e))
          ⊎ ((spec : TaskConfig) × (l ≡ task_of spec))
    Loaded-cases wrong_kind = inl refl
    Loaded-cases (load_error e) = inr (inl (e, refl))
    Loaded-cases (task_of spec) = inr (inr (spec, refl))

more_visits :
    (vs : List Visit) (m : Entries) (rest : Result (List Visit))
    (answer : Option (Result Collected))
    → Answers (place_all vs m) rest answer
    → Answers m (then_ok rest (λ ws. ok (vs ++ ws))) answer
more_visits vs m (ok ws) answer (c, e, s) =
    (c, e, subst (Shows c) (sym (place_all-append vs ws m)) s)
more_visits vs m (err e) answer a = a

sets_loop-Answers :
    (f : Files) (sets : List TaskSet) (c : Collected) (m : Entries)
    → Shows c m
    → Answers m (set_visits f sets) (sets_loop f sets c)
unfolding sets_loop
sets_loop-Answers f [] c m s = (c, refl, s)
sets_loop-Answers f (ts ∷ sets) c m s = elim (Result-cases (set_paths f ts)) [
  | inl (e, q) ↦ rw (sets_loop, set_visits, q) refl
  | inr (paths, q) ↦
      let a = paths_loop-Answers f ts paths c m s in
      elim (Result-cases (path_visits f ts paths)) [
        | inl (e, p) ↦
            let a' : paths_loop f ts paths c ≡ some (err e) =
              subst (λ r. Answers m r (paths_loop f ts paths c)) p a in
            rw (sets_loop, set_visits, q, p) (rw a' refl)
        | inr (vs, p) ↦
            let (c', e', s') = subst (λ r. Answers m r (paths_loop f ts paths c)) p a in
            rw (sets_loop, set_visits, q, p)
              (rw e' (
                more_visits vs m (set_visits f sets) (sets_loop f sets c')
                  (sets_loop-Answers f sets c' (place_all vs m) s')))
      ]
]

pub collect_task_configs_places :
    (f : Files) (sets : List TaskSet)
    → collect_task_configs f sets
      ≡ some (then_ok (set_visits f sets) (λ vs. ok (tasks_of (place_all vs []))))
unfolding collect_task_configs lookup
collect_task_configs_places f sets =
    let a = sets_loop-Answers f sets no_tasks [] (record { tasks = refl; indices = λ k. refl }) in
    elim (Result-cases (set_visits f sets)) [
      | inl (e, q) ↦
          let a' : sets_loop f sets no_tasks ≡ some (err e) =
            subst (λ r. Answers [] r (sets_loop f sets no_tasks)) q a in
          rw (collect_task_configs, a', q) refl
      | inr (vs, q) ↦
          let (c, e, s) = subst (λ r. Answers [] r (sets_loop f sets no_tasks)) q a in
          rw (collect_task_configs, e, q) (ap (λ l. some (ok l)) s.tasks)
    ]
