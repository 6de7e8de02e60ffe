-- ===== src/Config/Paths.antt =====
-- The paths of an eval file that pkg/eval/config.go has read: relative ones are taken from the directory
-- of the file, except those in the checkout of a source.
use mcpchecker.Config.{
  EvalSpec, EvalConfig, LlmJudgeEvalConfig, Library, AgentRef, SkillSource, SkillsConfig, Sources,
}
use mcpchecker.Config.Validate.{validate, validate_source}
use mcpchecker.Label.{TaskSet}
use mcpchecker.Prelude.Result.{Result-cases, ok}
use mcpchecker.Config.Succeeds.{then_both-inverse, ok-injective, str_eq-cases}
use mcpchecker.Prelude.{
  ap, if◌then◌else◌, refl, sym, ℕ, All, Bool-cases, List, Option, Option-cases, String, [], inl,
  inr, none, some, true, ◌+◌, ◌∷◌, ◌≡◌, ◌≢◌, ◌⊎◌,
}
use mcpchecker.Config.Read.{
  check_config, entries, read, resolve_judge, resolved, validate_sources, resolve_agent,
  resolve_local, resolve_relative_path, resolve_skill, resolve_skills, resolve_task_set,
  skills_loop, task_sets_loop,
}
use mathlib.Core.Path.{subst}

module _ (l : Library) where
  abbrev pub IsRooted : String → Type 0
  IsRooted p = (p ≡ "") ⊎ (l.is_abs p ≡ true)

  abbrev pub AgentIsRooted : Option AgentRef → Type 0
  AgentIsRooted none = Unit
  AgentIsRooted (some a) = (a.agent_type ≢ "file") ⊎ IsRooted a.path

  abbrev pub SkillsAreRooted : Option SkillsConfig → Type 0
  SkillsAreRooted none = Unit
  SkillsAreRooted (some c) = All (λ s. l.is_abs s.path ≡ true) c.sources

  -- The path of a local set is absolute; where there is none, its glob is, if it has one.
  abbrev pub SetIsRooted : TaskSet → Type 0
  SetIsRooted ts =
      (ts.source ≢ "") ⊎ ((l.is_abs ts.path ≡ true) ⊎ ((ts.path ≡ "") × IsRooted ts.glob))

  abbrev pub JudgeIsRooted : Option LlmJudgeEvalConfig → Type 0
  JudgeIsRooted none = Unit
  JudgeIsRooted (some j) = AgentIsRooted j.agent_ref

  abbrev pub ConfigIsRooted : EvalConfig → Type 0
  ConfigIsRooted c =
      AgentIsRooted c.agent
      × JudgeIsRooted c.llm_judge
      × IsRooted c.mcp_config_file
      × SkillsAreRooted c.skills
      × All SetIsRooted c.task_sets

  module _ (base : String) (joined : (p : String) → l.is_abs (l.join base p) ≡ true) where
    taken_abs : (p : String) → l.is_abs (if l.is_abs p then p else l.join base p) ≡ true
    taken_abs p = elim (Bool-cases (l.is_abs p)) [
      | inl r ↦ rw (r, r) refl
      | inr r ↦ rw r (joined p)
    ]

    resolved-IsRooted : (p : String) → IsRooted (resolve_relative_path l p base)
    unfolding resolve_relative_path
    resolved-IsRooted p = elim (str_eq-cases p "") [
      | inl (q, e) ↦ rw (resolve_relative_path, q) (inl e)
      | inr (q, n) ↦ rw (resolve_relative_path, q) (inr (taken_abs p))
    ]

    resolve_agent-IsRooted : (a : Option AgentRef) → AgentIsRooted (resolve_agent l base a)
    unfolding resolve_agent
    resolve_agent-IsRooted none = tt
    resolve_agent-IsRooted (some a) = elim (str_eq-cases a.agent_type "file") [
      | inl (q, e) ↦ rw (resolve_agent, q) (inr (resolved-IsRooted a.path))
      | inr (q, n) ↦ rw (resolve_agent, q) (inl n)
    ]

    resolve_skill-abs :
        (i : ℕ) (s t : SkillSource) → resolve_skill l base i s ≡ ok t → l.is_abs t.path ≡ true
    unfolding resolve_skill
    resolve_skill-abs i s t = elim (str_eq-cases s.source_type "") [
      | inl (q, _) ↦ rw (resolve_skill, q) (λ h. cc)
      | inr (q, _) ↦ elim (str_eq-cases s.source_type "path") [
        | inr (r, _) ↦ rw (resolve_skill, q, r) (λ h. cc)
        | inl (r, _) ↦ elim (str_eq-cases s.path "") [
          | inl (u, _) ↦ rw (resolve_skill, q, r, u) (λ h. cc)
          | inr (u, n) ↦
              rw (resolve_skill, q, r, u)
                (λ h. subst (λ x. l.is_abs x.path ≡ true) (ok-injective _ t h) (taken_abs s.path))
        ]
      ]
    ]

    skills_loop-abs :
        (i : ℕ) (ss ts : List SkillSource)
        → skills_loop l base i ss ≡ ok ts
        → All (λ s. l.is_abs s.path ≡ true) ts
    unfolding skills_loop
    skills_loop-abs i [] ts h = subst (All _) (ok-injective [] ts h) tt
    skills_loop-abs i (s ∷ ss) ts h =
        let (t, rest, p, q, e) =
          then_both-inverse (resolve_skill l base i s) (skills_loop l base (i + 1) ss)
            (λ r rs. r ∷ rs) ts h in
        subst (All _) e (resolve_skill-abs i s t p, skills_loop-abs (i + 1) ss rest q)

    resolve_local-IsRooted : (ts : TaskSet) → SetIsRooted (resolve_local l base ts)
    unfolding resolve_local
    resolve_local-IsRooted ts = elim (str_eq-cases ts.path "") [
      | inr (q, n) ↦ rw (resolve_local, q) (inr (inl (taken_abs ts.path)))
      | inl (q, e) ↦ elim (str_eq-cases ts.glob "") [
        | inr (r, n) ↦ rw (resolve_local, q, r) (inr (inr (e, inr (taken_abs ts.glob))))
        | inl (r, k) ↦ rw (resolve_local, q, r) (inr (inr (e, inl k)))
      ]
    ]

    resolve_task_set-IsRooted :
        (m : Option Sources) (i : ℕ) (ts t : TaskSet)
        → resolve_task_set l base m i ts ≡ ok t
        → SetIsRooted t
    unfolding resolve_task_set
    resolve_task_set-IsRooted m i ts t = elim (str_eq-cases ts.source "") [
      | inl (q, e) ↦
          rw (resolve_task_set, q)
            (λ h. subst SetIsRooted (ok-injective _ t h) (resolve_local-IsRooted ts))
      | inr (q, n) ↦ elim (Option-cases (validate_source l ts m)) [
        | inl p ↦ rw (resolve_task_set, q, p) (λ h. subst SetIsRooted (ok-injective _ t h) (inl n))
        | inr (e, p) ↦ rw (resolve_task_set, q, p) (λ h. cc)
      ]
    ]

    task_sets_loop-IsRooted :
        (m : Option Sources) (i : ℕ) (ss ts : List TaskSet)
        → task_sets_loop l base m i ss ≡ ok ts
        → All SetIsRooted ts
    unfolding task_sets_loop
    task_sets_loop-IsRooted m i [] ts h = subst (All _) (ok-injective [] ts h) tt
    task_sets_loop-IsRooted m i (s ∷ ss) ts h =
        let (t, rest, p, q, e) =
          then_both-inverse (resolve_task_set l base m i s) (task_sets_loop l base m (i + 1) ss)
            (λ r rs. r ∷ rs) ts h in
        subst (All _) e
          (resolve_task_set-IsRooted m i s t p, task_sets_loop-IsRooted m (i + 1) ss rest q)

    resolve_skills-IsRooted :
        (c d : Option SkillsConfig) → resolve_skills l base c ≡ ok d → SkillsAreRooted d
    unfolding resolve_skills
    resolve_skills-IsRooted none d = λ h. subst SkillsAreRooted (ok-injective none d h) tt
    resolve_skills-IsRooted (some c) d = elim (Result-cases (skills_loop l base 0 c.sources)) [
      | inl (e, p) ↦ rw (resolve_skills, p) (λ h. cc)
      | inr (ss, p) ↦
          rw (resolve_skills, p)
            (λ h. subst SkillsAreRooted (ok-injective _ d h) (skills_loop-abs 0 c.sources ss p))
    ]

    resolve_judge-IsRooted :
        (j : Option LlmJudgeEvalConfig) → JudgeIsRooted (resolve_judge l base j)
    unfolding resolve_judge
    resolve_judge-IsRooted none = tt
    resolve_judge-IsRooted (some j) = resolve_agent-IsRooted j.agent_ref

    check_config-IsRooted : (c d : EvalConfig) → check_config l base c ≡ ok d → ConfigIsRooted d
    unfolding check_config resolved
    check_config-IsRooted c d = elim (Option-cases (validate_sources l (entries c.sources))) [
      | inr (e, p) ↦ rw (check_config, p) (λ h. cc)
      | inl p ↦
          rw (check_config, p)
            (λ h.
              let (ss, sets, q, r, e) =
                then_both-inverse (resolve_skills l base c.skills)
                  (task_sets_loop l base c.sources 0 c.task_sets)
                  (λ ss sets. resolved l base c ss sets) d h in
              subst ConfigIsRooted e (
                resolve_agent-IsRooted c.agent,
                resolve_judge-IsRooted c.llm_judge,
                resolved-IsRooted c.mcp_config_file,
                resolve_skills-IsRooted c.skills ss q,
                task_sets_loop-IsRooted c.sources 0 c.task_sets sets r,
              ))
    ]

    -- If joining to the base directory makes a path absolute and an eval file is read, its base
    -- path is that directory, and these paths are absolute where they are not empty: those of the
    -- MCP configuration, of agents that are files and of skills, and of each task set without a
    -- source its path, or its glob where it has no path.
    pub read-IsRooted :
        (bytes : List ℕ) (s : EvalSpec)
        → read l bytes base ≡ ok s
        → (s.base_path ≡ base) × ConfigIsRooted s.config
    unfolding read
    read-IsRooted bytes s = elim (Result-cases (l.unmarshal bytes)) [
      | inl (e, p) ↦ rw (read, p) (λ h. cc)
      | inr (t, p) ↦ elim (Option-cases (validate t.type_meta "Eval")) [
        | inr (e, q) ↦ rw (read, p, q) (λ h. cc)
        | inl q ↦ elim (Result-cases (check_config l base t.config)) [
          | inl (e, r) ↦ rw (read, p, q, r) (λ h. cc)
          | inr (c, r) ↦
              rw (read, p, q, r)
                (λ h.
                  let e = ok-injective _ s h in
                  (
                    ap (λ x. x.base_path) (sym e),
                    subst (λ x. ConfigIsRooted x.config) e (check_config-IsRooted t.config c r),
                  ))
        ]
      ]
    ]
