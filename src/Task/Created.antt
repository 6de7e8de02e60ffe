-- ===== src/Task/Created.antt =====
-- That `NewTaskRunner` of pkg/task/run.go returns where no step is nil.
use mcpchecker.Task.{StepConfig, StepRunner, TaskConfig, TaskRunner, TaskSpec}
use mcpchecker.Prelude.Result.{Result, Result-cases}
use mcpchecker.Task.New.{
  Environment, finish_runner, is_empty, new_task_runner, parse_step, parse_steps, parse_task,
}
use mcpchecker.Task.Registry.{Registry, with_prefixes}
use mcpchecker.Prelude.{
  ap, ◌>>=◌, ◌∙◌, ℕ, All, Bool-cases, List, Option, Option-cases, String, [], inl, inr, none, refl,
  some, ◌++◌, ◌+◌, ◌∷◌, ◌≡◌, ◌≢◌,
}
use mcpchecker.Task.Requirements.{check_requirements}

abbrev pub AreSteps : List (Option StepConfig) → Type 0
AreSteps = All (λ s. s ≢ none)

-- No step of the task is nil.
abbrev pub HasSteps : TaskSpec → Type 0
HasSteps s = AreSteps s.setup × AreSteps s.verify × AreSteps s.cleanup

bind_some : {A B : Type 0} (o : Option A) (f : A → Option B) (a : A) → o ≡ some a → o >>= f ≡ f a
bind_some o f a e = ap (λ x. x >>= f) e

module _ {Ctx W : Type 0} where
  parse_step-some :
      (r : Registry Ctx W) (phase : String) (i : ℕ) (cfg : StepConfig) (error : Option String)
      (w : W)
      → (p : List (StepRunner Ctx W) × Option String × W) × (parse_step r phase i (some cfg) error w
          ≡ some p)
  unfolding parse_step
  parse_step-some r phase i cfg error w = (_, refl)

  parse_steps-AreSteps :
      (r : Registry Ctx W) (phase : String) (i : ℕ) (cfgs : List (Option StepConfig))
      (error : Option String) (w : W)
      → AreSteps cfgs
      → (p : List (StepRunner Ctx W) × Option String × W) × (parse_steps r phase i cfgs error w
          ≡ some p)
  unfolding parse_steps
  parse_steps-AreSteps r phase i [] error w a = (_, refl)
  parse_steps-AreSteps r phase i (none ∷ cfgs) error w a = absurd (a.0 refl)
  parse_steps-AreSteps r phase i (some cfg ∷ cfgs) error w a =
      let (first, p) = parse_step-some r phase i cfg error w in
      let (rest, q) = parse_steps-AreSteps r phase (i + 1) cfgs first.1 first.2 a.1 in
      (
        (first.0 ++ rest.0, rest.1, rest.2),
        bind_some _
              (λ x. parse_steps r phase (i + 1) cfgs x.1 x.2 >>= λ y. some (x.0 ++ y.0, y.1, y.2))
              first p
            ∙ bind_some _ (λ x. some (first.0 ++ x.0, x.1, x.2)) rest q,
      )

  pub new_task_runner-HasSteps :
      (env : Environment Ctx W) (cfg : TaskConfig) (w : W)
      → HasSteps cfg.spec
      → (p : Result (TaskRunner Ctx W) × W) × (new_task_runner env cfg w ≡ some p)
  unfolding new_task_runner parse_task
  new_task_runner-HasSteps env cfg w (a, b, c) = elim (Bool-cases (is_empty cfg.spec.prompt)) [
    | inl q ↦ rw (new_task_runner, q) (_, refl)
    | inr q ↦ elim (Option-cases env.managers) [
      | inl p ↦ rw (new_task_runner, q, p) (_, refl)
      | inr (m, p) ↦ elim (Result-cases (check_requirements m cfg.spec.requires)) [
        | inl (e, t) ↦ rw (new_task_runner, q, p, t) (_, refl)
        | inr (al, t) ↦
            let r =
              with_prefixes env.mcp_server_parser al.mcp_servers
                (with_prefixes env.extension_parser al.extensions env.default_registry) in
            let (x, ex) = parse_steps-AreSteps r "setup" 0 cfg.spec.setup none w a in
            let (y, ey) = parse_steps-AreSteps r "verify" 0 cfg.spec.verify x.1 x.2 b in
            let (z, ez) = parse_steps-AreSteps r "cleanup" 0 cfg.spec.cleanup y.1 y.2 c in
            (
              finish_runner env cfg x.0 y.0 z.0 z.1 z.2,
              rw (new_task_runner, parse_task, q, p, t, ex, ey, ez) refl,
            )
      ]
    ]
  ]
