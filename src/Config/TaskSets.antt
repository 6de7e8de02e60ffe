-- ===== src/Config/TaskSets.antt =====
-- The checks of task sets in pkg/eval/config.go, against what they ask.
use mcpchecker.Label.{TaskSet}
use mcpchecker.Config.{Library, Sources}
use mcpchecker.Config.Validate.{
  escapes, task_path, validate_no_path_escape, validate_source, validate_task_path,
}
use mcpchecker.Config.Valid.{IsDeclared, IsInside, IsTaskSet, PathIsInside}
use mcpchecker.Prelude.{
  ℕ, All, Bool-cases, List, Option, Option-cases, String, [], false, inl, inr, none, refl, some,
  ◌+◌, ◌↔◌, ◌∷◌, ◌≡◌, ◌≢◌, ◌⊎◌,
}
use mcpchecker.Config.Read.{resolve_task_set, task_sets_loop}
use mcpchecker.Config.Succeeds.{then_both_iff, Succeeds, str_eq-cases}
use text.Mathlib.Text.{starts_with}
use mcpchecker.Prelude.Assoc.{lookup}

module _ (l : Library) where
  escapes_iff :
      (p : String)
      → (escapes l p ≡ false) ↔ ((l.clean p ≢ "..") × (starts_with (l.clean p) "../" ≡ false))
  unfolding escapes
  escapes_iff p = elim (str_eq-cases (l.clean p) "..") [
    | inl (q, e) ↦ rw (escapes, q) (λ h. cc, λ h. absurd (h.0 e))
    | inr (q, n) ↦ rw (escapes, q) (λ h. (n, h), λ h. h.1)
  ]

  validate_task_path_iff :
      (source p kind : String)
      → (validate_task_path l source p kind ≡ none) ↔ ((p ≡ "") ⊎ ((p ≢ "") × IsInside l p))
  unfolding validate_task_path validate_no_path_escape
  validate_task_path_iff source p kind = elim (str_eq-cases p "") [
    | inl (q, e) ↦ rw (validate_task_path, q) (λ h. inl e, λ h. refl)
    | inr (q, n) ↦ elim (Bool-cases (l.path_is_abs p)) [
      | inl r ↦
          rw (validate_task_path, q, r) (λ h. cc, elim [ inl e ↦ absurd (n e) | inr k ↦ cc k.1.0 ])
      | inr r ↦ elim (Bool-cases (l.is_abs p)) [
        | inl t ↦
            rw (validate_task_path, q, r, t)
              (λ h. cc, elim [ inl e ↦ absurd (n e) | inr k ↦ cc k.1.1 ])
        | inr t ↦ elim (Bool-cases (escapes l p)) [
          | inl u ↦
              rw (validate_task_path, validate_no_path_escape, q, r, t, u)
                (
                  λ h. cc,
                  elim [ inl e ↦ absurd (n e) | inr k ↦ cc ((escapes_iff p).1 (k.1.2, k.1.3), u) ],
                )
          | inr u ↦
              rw (validate_task_path, validate_no_path_escape, q, r, t, u)
                (λ h. let (v, w) = (escapes_iff p).0 u in inr (n, (refl, refl, v, w)), λ h. refl)
        ]
      ]
    ]
  ]

  task_path_iff :
      (source : String) (ts : TaskSet)
      → (validate_task_path l source (task_path ts).0 (task_path ts).1 ≡ none) ↔ PathIsInside l ts
  unfolding task_path
  task_path_iff source ts = elim (str_eq-cases ts.path "") [
    | inl (q, e) ↦
        let (f, g) = validate_task_path_iff source ts.glob "glob" in
        rw (task_path, q) (λ h. inr (e, f h), elim [ inl k ↦ absurd (k.0 e) | inr k ↦ g k.1 ])
    | inr (q, n) ↦
        let (f, g) = validate_task_path_iff source ts.path "path" in
        rw (task_path, q)
          (
            λ h. elim (f h) [ inl e ↦ absurd (n e) | inr k ↦ inl k ],
            elim [ inl k ↦ g (inr k) | inr k ↦ absurd (n k.0) ],
          )
  ]

  validate_source_iff :
      (ts : TaskSet) (m : Option Sources)
      → (validate_source l ts m ≡ none) ↔ (IsDeclared ts.source m × PathIsInside l ts)
  unfolding validate_source
  validate_source_iff ts none = (λ h. cc, λ h. absurd h.0)
  validate_source_iff ts (some m) = elim (Option-cases (lookup ts.source m)) [
    | inl p ↦ rw (validate_source, p) (λ h. cc, λ h. absurd (h.0 refl))
    | inr (s, p) ↦
        let (f, g) = task_path_iff ts.source ts in
        rw (validate_source, p) (λ h. (λ e. cc, f h), λ h. g h.1)
  ]

  resolve_task_set_iff :
      (base : String) (m : Option Sources) (i : ℕ) (ts : TaskSet)
      → Succeeds (resolve_task_set l base m i ts) ↔ IsTaskSet l m ts
  unfolding resolve_task_set
  resolve_task_set_iff base m i ts = elim (str_eq-cases ts.source "") [
    | inl (q, e) ↦ rw (resolve_task_set, q) (λ h. inl e, λ h. (_, refl))
    | inr (q, n) ↦
        let (f, g) = validate_source_iff ts m in
        elim (Option-cases (validate_source l ts m)) [
          | inl p ↦
              rw (resolve_task_set, q, p) (λ h. let (v, w) = f p in inr (n, v, w), λ h. (_, refl))
          | inr (e, p) ↦
              rw (resolve_task_set, q, p)
                (λ (a, x). cc, elim [ inl k ↦ absurd (n k) | inr k ↦ cc (g (k.1, k.2), p) ])
        ]
  ]

  pub task_sets_loop_iff :
      (base : String) (m : Option Sources) (i : ℕ) (sets : List TaskSet)
      → Succeeds (task_sets_loop l base m i sets) ↔ All (IsTaskSet l m) sets
  unfolding task_sets_loop
  task_sets_loop_iff base m i [] = (λ h. tt, λ h. ([], refl))
  task_sets_loop_iff base m i (ts ∷ sets) =
      let (f, g) =
        then_both_iff (resolve_task_set l base m i ts) (task_sets_loop l base m (i + 1) sets)
          (λ r rs. r ∷ rs) in
      let (h, k) = resolve_task_set_iff base m i ts in
      let (p, q) = task_sets_loop_iff base m (i + 1) sets in
      (λ x. let (y, z) = f x in (h y, p z), λ (y, z). g (k y, q z))
