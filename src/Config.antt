-- ===== src/Config.antt =====
-- pkg/eval/config.go and pkg/util/meta.go: how an eval file is read and checked. YAML, the paths of
-- path/filepath and path, and `%q` are parameters; the extensions, which nothing here reads, are left out.
pub mod Validate
pub mod Read
pub mod Succeeds
pub mod Valid
pub mod Sources
pub mod TaskSets
pub mod Accepts
pub mod Paths
mod Tests
use mcpchecker.Task.{Limits}
use mcpchecker.Label.{TaskSet}
use mcpchecker.Prelude.Result.{Result}
use mcpchecker.Prelude.{ℕ, Bool, List, Option, String}

pub record TypeMeta : Type 0 where
  pub api_version : String
  pub kind : String

-- `AgentRef` of pkg/agent/config.go.
pub record AgentRef : Type 0 where
  pub agent_type : String
  pub path : String
  pub model : String

-- The judge's configuration of pkg/llmjudge/config.go.
pub record LlmJudgeEnvConfig : Type 0 where
  pub base_url_key : String
  pub api_key_key : String
  pub model_name_key : String

pub record LlmJudgeEvalConfig : Type 0 where
  pub env : Option LlmJudgeEnvConfig
  pub agent_ref : Option AgentRef

pub record SkillSource : Type 0 where
  pub source_type : String
  pub path : String

pub record SkillsConfig : Type 0 where
  pub sources : List SkillSource

pub record SourceSpec : Type 0 where
  pub repo : String
  pub ref : String
  pub server_mapping : List (String × String)

-- The named sources, pointers that may be nil.
abbrev pub Sources : Type 0
Sources = List (String × Option SourceSpec)

pub record EvalConfig : Type 0 where
  pub agent : Option AgentRef
  pub sources : Option Sources
  pub mcp_config_file : String
  pub llm_judge : Option LlmJudgeEvalConfig
  pub skills : Option SkillsConfig
  pub default_task_limits : Option Limits
  pub task_sets : List TaskSet

pub record EvalMetadata : Type 0 where
  pub name : String

pub record EvalSpec : Type 0 where
  pub type_meta : TypeMeta
  pub metadata : EvalMetadata
  pub config : EvalConfig
  pub base_path : String

pub record Library : Type 0 where
  -- `yaml.Unmarshal`, which sets no base path
  pub unmarshal : List ℕ → Result EvalSpec
  -- `filepath.IsAbs`, `path.IsAbs`, `filepath.Join` and `path.Clean`
  pub is_abs : String → Bool
  pub path_is_abs : String → Bool
  pub join : String → String → String
  pub clean : String → String
  -- `%q`
  pub quote : String → String
