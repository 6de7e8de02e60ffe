-- ===== src/Config/Accepts.antt =====
-- Which eval files pkg/eval/config.go reads.
use mcpchecker.Config.TaskSets.{task_sets_loop_iff}
use mcpchecker.Prelude.Result.{Result-cases, ok}
use mcpchecker.Config.{EvalSpec, Library, EvalConfig, TypeMeta}
use mcpchecker.Config.Succeeds.{
  then-ok_iff, then_both_iff, Succeeds, ok-injective, str_eq-cases, unless_error_iff,
}
use mcpchecker.Config.Read.{
  check_config, entries, read, resolve_skills, resolved, task_sets_loop, validate_sources,
}
use mcpchecker.Config.Validate.{join, known_version, validate, validate_api_version, validate_kind}
use mcpchecker.Config.Sources.{resolve_skills_iff, validate_sources_iff}
use mcpchecker.Config.Valid.{IsKnownVersion, IsValid, IsValidConfig}
use mcpchecker.Prelude.{
  ℕ, Bool-cases, List, String, eq_iff, inl, inr, none, refl, sym, true, ◌↔◌, ◌≡◌,
}
use mathlib.Core.Path.{subst}

known_version_iff : (v : String) → (known_version v ≡ true) ↔ IsKnownVersion v
unfolding known_version
known_version_iff v = elim (str_eq-cases v "") [
  | inl (q, e) ↦ rw (known_version, q) (λ h. inl e, λ h. refl)
  | inr (q, n) ↦ elim (str_eq-cases v "mcpchecker/v1alpha1") [
    | inl (r, e) ↦ rw (known_version, q, r) (λ h. inr (inl e), λ h. refl)
    | inr (r, k) ↦
        let (f, g) = eq_iff v "mcpchecker/v1alpha2" in
        rw (known_version, q, r)
          (
            λ h. inr (inr (f h)),
            elim [ inl e ↦ absurd (n e) | inr o ↦ elim o [ inl e ↦ absurd (k e) | inr e ↦ g e ] ],
          )
  ]
]

validate_iff :
    (m : TypeMeta) → (validate m "Eval" ≡ none) ↔ (IsKnownVersion m.api_version × (m.kind ≡ "Eval"))
unfolding validate validate_api_version validate_kind known_version join
validate_iff m =
    let (f, g) = known_version_iff m.api_version in
    elim (Bool-cases (known_version m.api_version)) [
      | inr q ↦ elim (str_eq-cases m.kind "Eval") [
        | inl (r, e) ↦
            rw (validate, validate_api_version, validate_kind, q, r) (λ h. cc, λ h. cc (g h.0, q))
        | inr (r, n) ↦
            rw (validate, validate_api_version, validate_kind, q, r) (λ h. cc, λ h. cc (g h.0, q))
      ]
      | inl q ↦ elim (str_eq-cases m.kind "Eval") [
        | inl (r, e) ↦
            rw (validate, validate_api_version, validate_kind, q, r) (λ h. (f q, e), λ h. refl)
        | inr (r, n) ↦
            rw (validate, validate_api_version, validate_kind, q, r) (λ h. cc, λ h. absurd (n h.1))
      ]
    ]

module _ (l : Library) where
  check_config_iff :
      (base : String) (c : EvalConfig) → Succeeds (check_config l base c) ↔ IsValidConfig l c
  unfolding check_config
  check_config_iff base c =
      let (f, g) = unless_error_iff (validate_sources l (entries c.sources)) _ in
      let (h, k) =
        then_both_iff (resolve_skills l base c.skills)
          (task_sets_loop l base c.sources 0 c.task_sets) (λ ss sets. resolved l base c ss sets) in
      let (p, q) = validate_sources_iff l (entries c.sources) in
      let (r, s) = resolve_skills_iff l base c.skills in
      let (t, u) = task_sets_loop_iff l base c.sources 0 c.task_sets in
      (
        λ x. let (y, z) = f x in let (v, w) = h z in (p y, r v, t w),
        λ (y, v, w). g (q y, k (s v, u w)),
      )

  -- An eval file is read without an error exactly when YAML reads it, its version is known, its
  -- kind is Eval, each source has a repository and a ref, each skill source is a path, and each
  -- task set with a source names a declared one and has a path, or a glob where it has no path,
  -- that is relative and stays inside the repository, or neither.
  pub read-IsValid :
      (bytes : List ℕ) (base : String)
      → Succeeds (read l bytes base) ↔ ((s : EvalSpec) × (l.unmarshal bytes ≡ ok s) × IsValid l s)
  unfolding read
  read-IsValid bytes base = elim (Result-cases (l.unmarshal bytes)) [
    | inl (e, p) ↦ rw (read, p) (λ (s, x). cc, λ (s, x, v). cc)
    | inr (s, p) ↦
        let (f, g) = unless_error_iff (validate s.type_meta "Eval") _ in
        let (h, k) =
          then-ok_iff (check_config l base s.config)
            (λ c. record s { base_path = base; config = c }) in
        let (q, r) = validate_iff s.type_meta in
        let (t, u) = check_config_iff base s.config in
        rw (read, p)
          (
            λ x. let (y, z) = f x in let (v, w) = q y in (s, refl, (v, w, t (h z))),
            λ (a, e, v).
                let (v, w, c) = subst (IsValid l) (sym (ok-injective s a e)) v in
                g (r (v, w), k (u c)),
          )
  ]
