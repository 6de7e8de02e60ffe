-- ===== src/Config/Sources.antt =====
-- The checks of sources and of skills in pkg/eval/config.go, against what they ask.
use mcpchecker.Config.Valid.{IsSkill, IsSource, SkillsAreFine}
use mcpchecker.Config.Succeeds.{then_both_iff, then-ok_iff, Succeeds, str_eq-cases}
use mcpchecker.Config.Validate.{validate_source_spec}
use mcpchecker.Config.Read.{resolve_skill, resolve_skills, skills_loop, validate_sources}
use mcpchecker.Prelude.{
  ℕ, All, List, Option, Option-cases, String, [], inl, inr, none, refl, some, ◌+◌, ◌↔◌, ◌∷◌, ◌≡◌,
}
use mcpchecker.Config.{Library, SkillSource, SkillsConfig, SourceSpec, Sources}

module _ (l : Library) where
  validate_source_spec_iff :
      (n : String) (s : Option SourceSpec) → (validate_source_spec l n s ≡ none) ↔ IsSource s
  unfolding validate_source_spec
  validate_source_spec_iff n none = (λ h. cc, λ h. absurd h)
  validate_source_spec_iff n (some s) = elim (str_eq-cases s.repo "") [
    | inl (q, p) ↦ rw q (λ h. cc, λ h. absurd (h.0 p))
    | inr (q, n) ↦ elim (str_eq-cases s.ref "") [
      | inl (r, p) ↦ rw (q, r) (λ h. cc, λ h. absurd (h.1 p))
      | inr (r, k) ↦ rw (q, r) (λ h. (n, k), λ h. refl)
    ]
  ]

  pub validate_sources_iff :
      (m : Sources) → (validate_sources l m ≡ none) ↔ All (λ (name, s). IsSource s) m
  unfolding validate_sources
  validate_sources_iff [] = (λ h. tt, λ h. refl)
  validate_sources_iff ((n, s) ∷ m) = elim (Option-cases (validate_source_spec l n s)) [
    | inl p ↦
        let (f, g) = validate_sources_iff m in
        rw (validate_sources, p) (λ h. ((validate_source_spec_iff n s).0 p, f h), λ h. g h.1)
    | inr (e, p) ↦
        rw (validate_sources, p) (λ h. cc, λ h. cc ((validate_source_spec_iff n s).1 h.0))
  ]

  resolve_skill_iff :
      (base : String) (i : ℕ) (s : SkillSource) → Succeeds (resolve_skill l base i s) ↔ IsSkill s
  unfolding resolve_skill
  resolve_skill_iff base i s = elim (str_eq-cases s.source_type "") [
    | inl (q, p) ↦ rw (resolve_skill, q) (λ (a, x). cc, λ h. cc (h.0, p))
    | inr (q, _) ↦ elim (str_eq-cases s.source_type "path") [
      | inr (r, n) ↦ rw (resolve_skill, q, r) (λ (a, x). cc, λ h. absurd (n h.0))
      | inl (r, p) ↦ elim (str_eq-cases s.path "") [
        | inl (t, e) ↦ rw (resolve_skill, q, r, t) (λ (a, x). cc, λ h. absurd (h.1 e))
        | inr (t, n) ↦ rw (resolve_skill, q, r, t) (λ h. (p, n), λ h. (_, refl))
      ]
    ]
  ]

  skills_loop_iff :
      (base : String) (i : ℕ) (ss : List SkillSource)
      → Succeeds (skills_loop l base i ss) ↔ All IsSkill ss
  unfolding skills_loop
  skills_loop_iff base i [] = (λ h. tt, λ h. ([], refl))
  skills_loop_iff base i (s ∷ ss) =
      let (f, g) =
        then_both_iff (resolve_skill l base i s) (skills_loop l base (i + 1) ss) (λ r rs. r ∷ rs) in
      let (h, k) = resolve_skill_iff base i s in
      let (m, n) = skills_loop_iff base (i + 1) ss in
      (λ x. let (y, z) = f x in (h y, m z), λ (y, z). g (k y, n z))

  pub resolve_skills_iff :
      (base : String) (c : Option SkillsConfig)
      → Succeeds (resolve_skills l base c) ↔ SkillsAreFine c
  unfolding resolve_skills
  resolve_skills_iff base none = (λ h. tt, λ h. (none, refl))
  resolve_skills_iff base (some c) =
      let (f, g) =
        then-ok_iff (skills_loop l base 0 c.sources) (λ ss. some (record { sources = ss })) in
      let (h, k) = skills_loop_iff base 0 c.sources in (λ x. h (f x), λ x. g (k x))
