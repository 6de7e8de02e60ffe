-- ===== src/Task/RunAgent.antt =====
-- `RunAgent` of pkg/task/run.go: the prompt with its templates resolved goes to the agent, and what the
-- agent does becomes the steps of a phase.
use mcpchecker.Assert.Skills.{contains}
use mcpchecker.Tokens.{Estimate}
use mcpchecker.Prelude.Result.{Result, err, ok}
use mcpchecker.Agent.{OutputStep, ToolCallSummary, final_message_from_steps}
use mcpchecker.Agent.Steps.{resolve}
use mcpchecker.Prelude.{
  Bool, List, Option, String, [], concat, false, if◌then◌else◌, none, not, some, str_eq, true, ◌||◌,
  ◌∷◌,
}
use mcpchecker.Task.{PhaseOutput, StepOutput, StepOutputs, TaskRunner}

-- What `agentRunner.RunTask` answers.
pub record AgentResult : Type 0 where
  pub output : List OutputStep
  pub tool_calls : List ToolCallSummary
  pub token_estimate : Estimate

abbrev pub AgentRunner : Type 0 → Type 0 → Type 0
AgentRunner Ctx W = Ctx → String → W → Result AgentResult × W

-- What a template library makes of a prompt and the outputs of the setup; `none` where any part fails.
abbrev pub Templates : Type 0
Templates = String → StepOutputs → Option String

abbrev is_nil : StepOutputs → Bool
is_nil [] = true
is_nil (o ∷ os) = false

unfoldable pub resolve_prompt_templates : Templates → StepOutputs → String → String
resolve_prompt_templates resolve outputs prompt =
    if is_nil outputs || not (contains prompt "{steps.")
    then prompt
    else elim (resolve prompt outputs) [ some s ↦ s | none ↦ prompt ]

abbrev pub agent_step : String → String → StepOutput
agent_step t message = record {
  step_type = t;
  success = true;
  message = message;
  outputs = [];
  error = "";
  usage = none;
}

-- The loop over the agent's steps; one of another type is passed over.
unfoldable pub phase_steps : List OutputStep → List (Option StepOutput)
phase_steps [] = []
phase_steps (os ∷ rest) =
    let later = phase_steps rest in
    if str_eq os.step_type "thinking"
    then some (agent_step "thinking" os.content) ∷ later
    else if str_eq os.step_type "message"
    then some (agent_step "message" os.content) ∷ later
    else if str_eq os.step_type "tool_call"
    then some (agent_step "tool_call" (elim os.tool_call [ some tc ↦ tc.title | none ↦ "" ]))
      ∷ later
    else later

-- The phase of an agent that failed.
unfoldable pub failed_agent : String → PhaseOutput
failed_agent e =
    let detail = concat ("failed to run agent: " ∷ e ∷ []) in
    record {
      steps =
          some (record {
            step_type = "agent";
            success = false;
            message = "";
            outputs = ("output", e) ∷ [];
            error = detail;
            usage = none;
          })
          ∷ [];
      success = false;
      error = detail;
      agent_details = none;
    }

unfoldable pub agent_phase : AgentResult → PhaseOutput
unfolding phase_steps
agent_phase result = record {
  steps = phase_steps result.output;
  success = true;
  error = "";
  agent_details = some (record {
    token_estimate = some result.token_estimate;
    tool_calls = result.tool_calls;
    output_steps = result.output;
  });
}

unfoldable pub run_agent :
    {Ctx W : Type 0}
    → Templates
    → AgentRunner Ctx W
    → TaskRunner Ctx W
    → Ctx
    → W
    → PhaseOutput × Option String × TaskRunner Ctx W × W
unfolding resolve_prompt_templates failed_agent agent_phase final_message_from_steps
run_agent templates run_task r ctx w =
    let prompt = resolve_prompt_templates templates r.setup_outputs r.prompt in
    let (answer, w1) = run_task ctx prompt w in
    elim answer [
      | err e ↦ (
        failed_agent e,
        some (concat ("failed to run agent: " ∷ e ∷ [])),
        record r { prompt = prompt },
        w1,
      )
      | ok result ↦ (
        agent_phase result,
        none,
        record r { prompt = prompt; output = final_message_from_steps result.output },
        w1,
      )
    ]
