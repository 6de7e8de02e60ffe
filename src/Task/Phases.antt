-- ===== src/Task/Phases.antt =====
-- `Setup`, `Cleanup` and `Verify` of pkg/task/run.go: a phase runs its steps until one has an error, and
-- each step gets the outputs of the steps before it.
use mcpchecker.Prelude.Assoc.{insert}
use mcpchecker.Prelude.{
  ℕ, Bool, List, Option, String, [], concat, false, if◌then◌else◌, none, not, show_ℕ, some, str_eq,
  true, ◌&&◌, ◌++◌, ◌+◌, ◌∷◌,
}
use mcpchecker.Task.{
  AgentContext, PhaseOutput, StepOutput, StepOutputs, StepRunner, Strings, TaskRunner,
}

abbrev pub new_output : PhaseOutput
new_output = record { steps = []; success = true; error = ""; agent_details = none }

-- `out.Steps = append(out.Steps, res)`
unfoldable pub add_step : Option StepOutput → PhaseOutput → PhaseOutput
add_step res out = record out { steps = out.steps ++ res ∷ [] }

-- `if res != nil && !res.Success { out.Success = false }`
unfoldable pub note_success : Option StepOutput → PhaseOutput → PhaseOutput
note_success none out = out
note_success (some r) out = if not r.success then record out { success = false } else out

abbrev pub has_any : Strings → Bool
has_any [] = false
has_any (o ∷ os) = true

-- The outputs of a step that succeeded are kept under its type.
unfoldable pub remember : Option StepOutput → StepOutputs → StepOutputs
remember none m = m
remember (some r) m =
    if r.success && has_any r.outputs && not (str_eq r.step_type "")
    then insert r.step_type r.outputs m
    else m

-- What a phase leaves: its output, its error, if there is one, and the steps' outputs.
pub record Phase : Type 0 where
  pub out : PhaseOutput
  pub error : Option String
  pub outputs : StepOutputs

unfoldable pub failed_step : String → ℕ → String → PhaseOutput → StepOutputs → Phase
failed_step name i e out m = record {
  out = record out { success = false; error = e };
  error = some (concat (name ∷ "[" ∷ show_ℕ i ∷ "] failed: " ∷ e ∷ []));
  outputs = m;
}

-- The copy of a map by a loop.
unfoldable pub copy_outputs : StepOutputs → StepOutputs → StepOutputs
copy_outputs [] m = m
copy_outputs ((k, v) ∷ rest) m = copy_outputs rest (insert k v m)

module _ {Ctx W : Type 0} where
  -- The loop over the steps, from the `i`-th on.
  unfoldable pub run_steps :
      String
      → String
      → Option AgentContext
      → Ctx
      → ℕ
      → List (StepRunner Ctx W)
      → PhaseOutput
      → StepOutputs
      → W
      → Phase × W
  unfolding add_step note_success remember failed_step
  run_steps name dir agent ctx i [] out m w = (record { out = out; error = none; outputs = m }, w)
  run_steps name dir agent ctx i (s ∷ steps) out m w =
      let (res, error, w1) = s ctx (record { workdir = dir; agent = agent; step_outputs = m }) w in
      elim error [
        | some e ↦ (failed_step name i e (add_step res out) m, w1)
        | none ↦
            run_steps name dir agent ctx (i + 1) steps (note_success res (add_step res out))
              (remember res m) w1
      ]

  -- The outputs are kept for the cleanup and for the prompt if there is no error.
  unfoldable pub setup :
      TaskRunner Ctx W → Ctx → W → PhaseOutput × Option String × TaskRunner Ctx W × W
  unfolding run_steps
  setup r ctx w =
      let (p, w1) = run_steps "setup" r.base_dir none ctx 0 r.setup new_output [] w in
      (
        p.out,
        p.error,
        elim p.error [ none ↦ record r { setup_outputs = p.outputs } | some e ↦ r ],
        w1,
      )

  unfoldable pub cleanup : TaskRunner Ctx W → Ctx → W → PhaseOutput × Option String × W
  unfolding run_steps copy_outputs
  cleanup r ctx w =
      let (p, w1) =
        run_steps "cleanup" r.base_dir none ctx 0 r.cleanup new_output
          (copy_outputs r.setup_outputs []) w in
      (p.out, p.error, w1)

  unfoldable pub verify : TaskRunner Ctx W → Ctx → W → PhaseOutput × Option String × W
  unfolding run_steps
  verify r ctx w =
      let (p, w1) =
        run_steps "verify" r.base_dir (some (record { prompt = r.prompt; output = r.output })) ctx 0
          r.verify new_output [] w in
      (p.out, p.error, w1)
