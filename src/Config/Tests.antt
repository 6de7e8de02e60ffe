-- ===== src/Config/Tests.antt =====
-- Runs of the reading of an eval file.
use mcpchecker.Config.Accepts.{read-IsValid}
use mcpchecker.Config.Valid.{IsValid}
use mcpchecker.Config.Paths.{read-IsRooted, ConfigIsRooted}
use mcpchecker.Prelude.Assoc.{lookup}
use mcpchecker.Config.{Library, EvalSpec}
use mcpchecker.Config.Validate.{
  escapes, known_version, task_path, validate, validate_api_version, validate_kind,
  validate_no_path_escape, validate_source, validate_source_spec, validate_task_path, join,
}
use mcpchecker.Config.Read.{
  check_config, entries, resolve_agent, resolve_judge, resolve_local, resolve_relative_path,
  resolve_skill, resolve_skills, resolve_task_set, resolved, skills_loop, task_sets_loop,
  unless_error, validate_sources, read,
}
use mcpchecker.Label.{TaskSet}
use mcpchecker.Prelude.Result.{Result, err, ok, then_ok}
use mcpchecker.Prelude.{
  ap, str_append_assoc, ◌∙◌, str_append, show_ℕ, true, ◌↔◌, List, String, [], concat, none, refl,
  some, ◌∷◌, ◌≡◌,
}
use text.Mathlib.Text.{starts_with}
use text.Mathlib.TextPositions.{starts_with-append}
use mcpchecker.Config.Succeeds.{Succeeds}

-- Paths as on Unix; those below are clean.
abbrev fs_with : EvalSpec → Library
fs_with spec = record {
  unmarshal = λ bytes. ok spec;
  is_abs = λ p. starts_with p "/";
  path_is_abs = λ p. starts_with p "/";
  join = λ base p. concat (base ∷ "/" ∷ p ∷ []);
  clean = λ p. p;
  quote = λ s. concat ("\"" ∷ s ∷ "\"" ∷ []);
}

abbrev set_of : String → String → String → TaskSet
set_of source path glob = record {
  glob = glob;
  path = path;
  source = source;
  label_selector = [];
  assertions = none;
}

abbrev spec_with : List TaskSet → EvalSpec
spec_with sets = record {
  type_meta = record { api_version = "mcpchecker/v1alpha2"; kind = "Eval" };
  metadata = record { name = "demo" };
  config = record {
    agent = some (record { agent_type = "file"; path = "agent.yaml"; model = "" });
    sources = some (
        ("shared", some (record { repo = "github.com/o/r"; ref = "main"; server_mapping = [] }))
        ∷ []);
    mcp_config_file = "mcp.json";
    llm_judge = none;
    skills = some (record { sources = record { source_type = "path"; path = "/skills" } ∷ [] });
    default_task_limits = none;
    task_sets = sets;
  };
  base_path = "";
}

abbrev good_sets : List TaskSet
good_sets = set_of "shared" "" "tasks/*.yaml" ∷ set_of "" "tasks/a.yaml" "" ∷ []

-- The sets of what was read.
abbrev sets_of : Result EvalSpec → Result (List TaskSet)
sets_of r = then_ok r (λ s. ok s.config.task_sets)

good_sets_run :
    sets_of (read (fs_with (spec_with good_sets)) [] "/evals")
    ≡ ok (set_of "shared" "" "tasks/*.yaml" ∷ set_of "" "/evals/tasks/a.yaml" "" ∷ [])
unfolding read check_config validate_sources validate_source_spec entries resolve_skills skills_loop
    resolve_skill task_sets_loop resolve_task_set resolve_local resolve_relative_path
    validate_source validate_task_path task_path validate_no_path_escape escapes lookup validate
    validate_api_version validate_kind known_version join unless_error resolved resolve_agent
    resolve_judge concat show_ℕ
good_sets_run = refl

undeclared_run :
    sets_of (read (fs_with (spec_with (set_of "other" "" "*.yaml" ∷ []))) [] "/evals")
    ≡ err "taskSet[0]: references undefined source \"other\""
unfolding read check_config validate_sources validate_source_spec entries resolve_skills skills_loop
    resolve_skill task_sets_loop resolve_task_set resolve_local resolve_relative_path
    validate_source validate_task_path task_path validate_no_path_escape escapes lookup validate
    validate_api_version validate_kind known_version join unless_error resolved resolve_agent
    resolve_judge concat show_ℕ
undeclared_run = refl

escaping_run :
    sets_of (read (fs_with (spec_with (set_of "shared" "../a.yaml" "" ∷ []))) [] "/evals")
    ≡ err "taskSet[0]: path escapes source repo root: path \"../a.yaml\" escapes the repo root"
unfolding read check_config validate_sources validate_source_spec entries resolve_skills skills_loop
    resolve_skill task_sets_loop resolve_task_set resolve_local resolve_relative_path
    validate_source validate_task_path task_path validate_no_path_escape escapes lookup validate
    validate_api_version validate_kind known_version join unless_error resolved resolve_agent
    resolve_judge concat show_ℕ
escaping_run = refl

-- With both a path and a glob only the path is checked, although the glob is what the runner reads.
both_run :
    sets_of (read (fs_with (spec_with (set_of "shared" "a.yaml" "../*.yaml" ∷ []))) [] "/evals")
    ≡ ok (set_of "shared" "a.yaml" "../*.yaml" ∷ [])
unfolding read check_config validate_sources validate_source_spec entries resolve_skills skills_loop
    resolve_skill task_sets_loop resolve_task_set resolve_local resolve_relative_path
    validate_source validate_task_path task_path validate_no_path_escape escapes lookup validate
    validate_api_version validate_kind known_version join unless_error resolved resolve_agent
    resolve_judge concat show_ℕ
both_run = refl

read-IsValid_example : Succeeds (read (fs_with (spec_with good_sets)) [] "/evals") ↔ (
    (s : EvalSpec) × (ok (spec_with good_sets) ≡ ok s) × IsValid (fs_with (spec_with good_sets)) s)
read-IsValid_example = read-IsValid (fs_with (spec_with good_sets)) [] "/evals"

-- Joined to `/evals` every path is absolute.
joined_abs : (p : String) → starts_with (concat ("/evals" ∷ "/" ∷ p ∷ [])) "/" ≡ true
unfolding concat
joined_abs p =
    let rest = concat ("/" ∷ p ∷ []) in
    ap (λ s. starts_with s "/") (str_append_assoc "/" "evals" rest)
    ∙ starts_with-append "/" (str_append "evals" rest)

abbrev read_spec : EvalSpec
read_spec = record (spec_with good_sets) {
  base_path = "/evals";
  config = record (spec_with good_sets).config {
    agent = some (record { agent_type = "file"; path = "/evals/agent.yaml"; model = "" });
    mcp_config_file = "/evals/mcp.json";
    task_sets = set_of "shared" "" "tasks/*.yaml" ∷ set_of "" "/evals/tasks/a.yaml" "" ∷ [];
  };
}

read_spec_run : read (fs_with (spec_with good_sets)) [] "/evals" ≡ ok read_spec
unfolding read check_config validate_sources validate_source_spec entries resolve_skills skills_loop
    resolve_skill task_sets_loop resolve_task_set resolve_local resolve_relative_path
    validate_source validate_task_path task_path validate_no_path_escape escapes lookup validate
    validate_api_version validate_kind known_version join unless_error resolved resolve_agent
    resolve_judge concat show_ℕ
read_spec_run = refl

read-IsRooted_example :
    (read_spec.base_path ≡ "/evals")
    × ConfigIsRooted (fs_with (spec_with good_sets)) read_spec.config
read-IsRooted_example =
    read-IsRooted (fs_with (spec_with good_sets)) "/evals" joined_abs [] read_spec read_spec_run
