-- ===== src/Task.antt =====
-- pkg/task/run.go and pkg/steps: a task's requirements and steps, and its phases. A context is a value of
-- a type `Ctx`, and all that lies outside the program (and the values that a run has drawn at random) is
-- a world, a value of a type `W` that each call from outside takes and gives back.
pub mod Registry
pub mod Requirements
pub mod New
pub mod Created
pub mod Phases
pub mod Trace
pub mod Verdict
pub mod Outputs
pub mod RunAgent
pub mod Separate
mod Tests
use mcpchecker.Prelude.Int.{ℤ}
use mcpchecker.Agent.{OutputStep, ToolCallSummary}
use mcpchecker.Prelude.{Bool, List, Option, String}
use mcpchecker.Tokens.{Estimate, Usage}
use mcpchecker.Proxy.{Payload}

abbrev pub Strings : Type 0
Strings = List (String × String)

-- Maps a step's type to its outputs.
abbrev pub StepOutputs : Type 0
StepOutputs = List (String × Strings)

pub record AgentContext : Type 0 where
  pub prompt : String
  pub output : String

pub record StepInput : Type 0 where
  pub workdir : String
  pub agent : Option AgentContext
  pub step_outputs : StepOutputs

pub record StepOutput : Type 0 where
  pub step_type : String
  pub success : Bool
  pub message : String
  pub outputs : Strings
  pub error : String
  pub usage : Option Usage

pub record StepConfig : Type 0 where
  pub id : String
  pub config : List (String × Payload)

-- What a step answers: an output, which may be nil, an error, if there is one, and the world.
abbrev pub StepRunner : Type 0 → Type 0 → Type 0
StepRunner Ctx W = Ctx → StepInput → W → Option StepOutput × Option String × W

pub record AgentDetails : Type 0 where
  pub token_estimate : Option Estimate
  pub tool_calls : List ToolCallSummary
  pub output_steps : List OutputStep

pub record PhaseOutput : Type 0 where
  pub steps : List (Option StepOutput)
  pub success : Bool
  pub error : String
  pub agent_details : Option AgentDetails

-- `util.Limits` and `util.Step`
pub record Limits : Type 0 where
  pub timeout : String
  pub cleanup_timeout : String

pub record Step : Type 0 where
  pub inline_text : String
  pub file : String

pub record Requirement : Type 0 where
  pub extension : Option String
  pub mcp_server : Option String
  pub alias : Option String

-- The steps are pointers: a null in the file is a nil among them.
pub record TaskSpec : Type 0 where
  pub requires : List Requirement
  pub limits : Option Limits
  pub setup : List (Option StepConfig)
  pub cleanup : List (Option StepConfig)
  pub verify : List (Option StepConfig)
  pub prompt : Option Step

pub record TaskMetadata : Type 0 where
  pub name : String
  pub difficulty : String
  pub labels : Strings
  pub parallel : Bool
  pub runs : ℤ

-- A task that `Read` returns has a spec, so that the pointer is a value here.
pub record TaskConfig : Type 0 where
  pub metadata : TaskMetadata
  pub spec : TaskSpec
  pub base_path : String

pub record TaskRunner (Ctx W : Type 0) : Type 0 where
  pub setup : List (StepRunner Ctx W)
  pub verify : List (StepRunner Ctx W)
  pub cleanup : List (StepRunner Ctx W)
  pub prompt : String
  pub output : String
  pub base_dir : String
  pub setup_outputs : StepOutputs
