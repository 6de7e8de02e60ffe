-- ===== src/Config/Read.antt =====
-- `Read` of pkg/eval/config.go and `ResolveRelativePath` of pkg/util, whose error is always nil.
use mcpchecker.Label.{TaskSet}
use mcpchecker.Prelude.Result.{Result, err, ok, then_ok}
use mcpchecker.Config.Validate.{validate, validate_source, validate_source_spec}
use mcpchecker.Config.{
  AgentRef, EvalConfig, EvalSpec, Library, LlmJudgeEvalConfig, SkillSource, SkillsConfig, Sources,
}
use mcpchecker.Prelude.{
  ℕ, List, Option, String, [], concat, if◌then◌else◌, none, not, show_ℕ, some, str_eq, ◌+◌, ◌∷◌,
}

unfoldable pub resolve_relative_path : Library → String → String → String
resolve_relative_path l file base =
    if str_eq file "" then file else if l.is_abs file then file else l.join base file

unfoldable pub resolve_agent : Library → String → Option AgentRef → Option AgentRef
unfolding resolve_relative_path
resolve_agent l base none = none
resolve_agent l base (some a) =
    if str_eq a.agent_type "file"
    then some (record a { path = resolve_relative_path l a.path base })
    else some a

unfoldable pub resolve_judge :
    Library → String → Option LlmJudgeEvalConfig → Option LlmJudgeEvalConfig
unfolding resolve_agent
resolve_judge l base none = none
resolve_judge l base (some j) = some (record j { agent_ref = resolve_agent l base j.agent_ref })

-- A nil map has no entries.
unfoldable pub entries : Option Sources → Sources
entries none = []
entries (some m) = m

unfoldable pub validate_sources : Library → Sources → Option String
unfolding validate_source_spec
validate_sources l [] = none
validate_sources l ((name, src) ∷ m) = elim (validate_source_spec l name src) [
  | some e ↦ some e
  | none ↦ validate_sources l m
]

unfoldable pub resolve_skill : Library → String → ℕ → SkillSource → Result SkillSource
unfolding resolve_relative_path concat
resolve_skill l base i src =
    let at = concat ("skills.sources[" ∷ show_ℕ i ∷ "]: " ∷ []) in
    if str_eq src.source_type ""
    then err (concat (at ∷ "type is required" ∷ []))
    else if not (str_eq src.source_type "path")
    then err
        (concat (at ∷ "unsupported type " ∷ l.quote src.source_type ∷ " (must be \"path\")" ∷ []))
    else if str_eq src.path ""
    then err (concat (at ∷ "path is required for type \"path\"" ∷ []))
    else ok (record src { path = resolve_relative_path l src.path base })

unfoldable pub skills_loop : Library → String → ℕ → List SkillSource → Result (List SkillSource)
unfolding resolve_skill
skills_loop l base i [] = ok []
skills_loop l base i (s ∷ ss) =
    then_ok (resolve_skill l base i s)
      (λ r. then_ok (skills_loop l base (i + 1) ss) (λ rs. ok (r ∷ rs)))

unfoldable pub resolve_skills :
    Library → String → Option SkillsConfig → Result (Option SkillsConfig)
unfolding skills_loop
resolve_skills l base none = ok none
resolve_skills l base (some c) =
    then_ok (skills_loop l base 0 c.sources) (λ ss. ok (some (record { sources = ss })))

-- The path of a set without a source; the glob where there is no path.
unfoldable pub resolve_local : Library → String → TaskSet → TaskSet
unfolding resolve_relative_path
resolve_local l base ts =
    if not (str_eq ts.path "")
    then record ts { path = resolve_relative_path l ts.path base }
    else if not (str_eq ts.glob "")
    then record ts { glob = resolve_relative_path l ts.glob base }
    else ts

unfoldable pub resolve_task_set : Library → String → Option Sources → ℕ → TaskSet → Result TaskSet
unfolding resolve_local validate_source
resolve_task_set l base sources i ts =
    if not (str_eq ts.source "")
    then elim (validate_source l ts sources) [
      | some e ↦ err (concat ("taskSet[" ∷ show_ℕ i ∷ "]: " ∷ e ∷ []))
      | none ↦ ok ts
    ]
    else ok (resolve_local l base ts)

unfoldable pub task_sets_loop :
    Library → String → Option Sources → ℕ → List TaskSet → Result (List TaskSet)
unfolding resolve_task_set
task_sets_loop l base sources i [] = ok []
task_sets_loop l base sources i (ts ∷ rest) =
    then_ok (resolve_task_set l base sources i ts)
      (λ r. then_ok (task_sets_loop l base sources (i + 1) rest) (λ rs. ok (r ∷ rs)))

-- `if err != nil { return nil, err }`
unfoldable pub unless_error {ℓ} : {A : Type ℓ} → Option String → Result A → Result A
unless_error none r = r
unless_error (some e) r = err e

-- The configuration with its paths resolved.
unfoldable pub resolved :
    Library → String → EvalConfig → Option SkillsConfig → List TaskSet → EvalConfig
unfolding resolve_agent resolve_judge resolve_relative_path
resolved l base c skills sets = record c {
  agent = resolve_agent l base c.agent;
  llm_judge = resolve_judge l base c.llm_judge;
  mcp_config_file = resolve_relative_path l c.mcp_config_file base;
  skills = skills;
  task_sets = sets;
}

unfoldable pub check_config : Library → String → EvalConfig → Result EvalConfig
unfolding resolved unless_error validate_sources entries resolve_skills task_sets_loop
check_config l base c = unless_error (validate_sources l (entries c.sources)) (
    then_ok (resolve_skills l base c.skills) (λ skills.
      then_ok (task_sets_loop l base c.sources 0 c.task_sets)
        (λ sets. ok (resolved l base c skills sets))))

unfoldable pub read : Library → List ℕ → String → Result EvalSpec
unfolding unless_error validate check_config
read l bytes base = then_ok (l.unmarshal bytes) (λ spec.
    unless_error (validate spec.type_meta "Eval") (
      then_ok (check_config l base spec.config)
        (λ c. ok (record spec { base_path = base; config = c }))))
