-- ===== src/Task/Trace.antt =====
-- What the steps of a phase answer, one after the other: the course of a phase of pkg/task/run.go as a
-- relation, apart from what the phase reports of it.
use mcpchecker.Prelude.{ℕ, List, Option, String, [], get_elem?, none, refl, some, ◌+◌, ◌∷◌, ◌≡◌}
use mcpchecker.Task.{AgentContext, StepInput, StepOutput, StepOutputs, StepRunner}
use mcpchecker.Task.Phases.{remember}

-- What a step is given: the outputs of the steps before it, by their types.
abbrev pub given_input : String → Option AgentContext → StepOutputs → StepInput
given_input dir agent m = record { workdir = dir; agent = agent; step_outputs = m }

module _ {Ctx W : Type 0} (dir : String) (agent : Option AgentContext) (ctx : Ctx) where
  -- `Trace i steps m w answers stop n v`: from the `i`-th step on, the steps that ran answered
  -- `answers`, each in the world that the one before it left, until they all had run, or until the one
  -- of index `k` had the error `e`, if `stop` is `some (k, e)`.
  pub data Trace
      : ℕ
        → List (StepRunner Ctx W)
        → StepOutputs
        → W
        → List (Option StepOutput)
        → Option (ℕ × String)
        → StepOutputs
        → W
        → Type 0 where
    all_ran : {i : ℕ} {m : StepOutputs} {w : W} → Trace i [] m w [] none m w
    stopped :
        {i : ℕ} {s : StepRunner Ctx W} {steps : List (StepRunner Ctx W)} {m : StepOutputs} {w : W}
        (e : String)
        → (s ctx (given_input dir agent m) w).1 ≡ some e
        → Trace i
            (s ∷ steps)
            m
            w
            ((s ctx (given_input dir agent m) w).0 ∷ [])
            (some (i, e))
            m
            (s ctx (given_input dir agent m) w).2
    ran :
        {i : ℕ} {s : StepRunner Ctx W} {steps : List (StepRunner Ctx W)} {m n : StepOutputs}
        {w v : W} {answers : List (Option StepOutput)} {stop : Option (ℕ × String)}
        → (s ctx (given_input dir agent m) w).1 ≡ none
        → Trace
            (i + 1)
            steps
            (remember (s ctx (given_input dir agent m) w).0 m)
            (s ctx (given_input dir agent m) w).2
            answers
            stop
            n
            v
        → Trace i (s ∷ steps) m w ((s ctx (given_input dir agent m) w).0 ∷ answers) stop n v

  -- The first step that there is runs.
  pub Trace-first :
      {i : ℕ} {s : StepRunner Ctx W} {steps : List (StepRunner Ctx W)} {m n : StepOutputs} {w v : W}
      {answers : List (Option StepOutput)} {stop : Option (ℕ × String)}
      → Trace i (s ∷ steps) m w answers stop n v
      → get_elem? answers 0 ≡ some (s ctx (given_input dir agent m) w).0
  Trace-first (stopped e q) = refl
  Trace-first (ran q t) = refl
