-- ===== src/Task/New.antt =====
-- `NewTaskRunner` of pkg/task/run.go.
use mcpchecker.Prelude.Result.{Result, err, ok}
use mcpchecker.Task.Phases.{cleanup, setup, verify}
use mcpchecker.Task.Requirements.{Aliases, Managers, check_requirements}
use mcpchecker.Task.Registry.{PrefixParser, Registry, parse_config, with_prefixes}
use mcpchecker.Prelude.{
  ℕ, Bool, List, Option, String, [], concat, if◌then◌else◌, none, not, show_ℕ, some, str_eq, true,
  ◌&&◌, ◌>>=◌, ◌++◌, ◌+◌, ◌∷◌,
}
use mcpchecker.Task.{Step, StepConfig, StepRunner, TaskConfig, TaskRunner}

-- What is outside of the function: the managers of the context, the registry's parsers, those of
-- extensions and of MCP servers, and `os.ReadFile`.
pub record Environment (Ctx W : Type 0) : Type 0 where
  pub managers : Option Managers
  pub default_registry : Registry Ctx W
  pub extension_parser : String → PrefixParser Ctx W
  pub mcp_server_parser : String → PrefixParser Ctx W
  pub read_file : String → W → Result String × W

-- `IsEmpty` and `GetValue` of `util.Step`.
unfoldable pub is_empty : Option Step → Bool
is_empty none = true
is_empty (some s) = str_eq s.file "" && str_eq s.inline_text ""

unfoldable pub get_value :
    {W : Type 0} → (String → W → Result String × W) → Option Step → W → Result String × W
get_value read none w = (ok "", w)
get_value read (some s) w =
    if not (str_eq s.inline_text "") then (ok s.inline_text, w) else read s.file w

-- `errors.Join` of the errors so far, if there are any, and one more.
unfoldable pub join_error : Option String → String → String
join_error none e = e
join_error (some es) e = concat (es ∷ "\n" ∷ e ∷ [])

-- The id that a step without one gets.
unfoldable pub with_id : String → ℕ → StepConfig → StepConfig
with_id phase i cfg =
    if str_eq cfg.id "" then record cfg { id = concat (phase ∷ "_" ∷ show_ℕ i ∷ []) } else cfg

module _ {Ctx W : Type 0} where
  -- One round of a loop over the steps of a phase: the runner, if the step parses, and the errors. The id
  -- of a nil step is a nil dereference, before `Parse` could refuse it.
  unfoldable pub parse_step :
      Registry Ctx W
      → String
      → ℕ
      → Option StepConfig
      → Option String
      → W
      → Option (List (StepRunner Ctx W) × Option String × W)
  unfolding parse_config join_error with_id
  parse_step r phase i none error w = none
  parse_step r phase i (some cfg) error w =
      let (answer, w1) = parse_config r (with_id phase i cfg).config w in
      some (elim answer [
        | ok s ↦ (s ∷ [], error, w1)
        | err e ↦ (
          [],
          some (
              join_error error
                (concat ("failed to parse " ∷ phase ∷ "[" ∷ show_ℕ i ∷ "]: " ∷ e ∷ []))),
          w1,
        )
      ])

  -- The loop. A step that does not parse leaves nil behind, but then no runner is returned at all.
  unfoldable pub parse_steps :
      Registry Ctx W
      → String
      → ℕ
      → List (Option StepConfig)
      → Option String
      → W
      → Option (List (StepRunner Ctx W) × Option String × W)
  unfolding parse_step
  parse_steps r phase i [] error w = some ([], error, w)
  parse_steps r phase i (cfg ∷ cfgs) error w = do
    first ← parse_step r phase i cfg error w
    rest ← parse_steps r phase (i + 1) cfgs first.1 first.2
    some (first.0 ++ rest.0, rest.1, rest.2)

  -- What follows the three loops: the errors of the steps, and the prompt.
  unfoldable pub finish_runner :
      Environment Ctx W
      → TaskConfig
      → List (StepRunner Ctx W)
      → List (StepRunner Ctx W)
      → List (StepRunner Ctx W)
      → Option String
      → W
      → Result (TaskRunner Ctx W) × W
  unfolding get_value
  finish_runner env cfg setup verify cleanup (some e) w =
      (err (concat ("failed to parse task steps: " ∷ e ∷ [])), w)
  finish_runner env cfg setup verify cleanup none w =
      let (value, w1) = get_value env.read_file cfg.spec.prompt w in
      elim value [
        | err e ↦ (err (concat ("failed to get prompt for task: " ∷ e ∷ [])), w1)
        | ok prompt ↦ (
          ok (record {
            setup = setup;
            verify = verify;
            cleanup = cleanup;
            prompt = prompt;
            output = "";
            base_dir = cfg.base_path;
            setup_outputs = [];
          }),
          w1,
        )
      ]

  -- What follows the requirements.
  unfoldable pub parse_task :
      Environment Ctx W → TaskConfig → Aliases → W → Option (Result (TaskRunner Ctx W) × W)
  unfolding with_prefixes parse_steps finish_runner
  parse_task env cfg a w =
      let r =
        with_prefixes env.mcp_server_parser a.mcp_servers
          (with_prefixes env.extension_parser a.extensions env.default_registry) in
      do
        setup ← parse_steps r "setup" 0 cfg.spec.setup none w
        verify ← parse_steps r "verify" 0 cfg.spec.verify setup.1 setup.2
        cleanup ← parse_steps r "cleanup" 0 cfg.spec.cleanup verify.1 verify.2
        some (finish_runner env cfg setup.0 verify.0 cleanup.0 cleanup.1 cleanup.2)

  -- A panic is `none`.
  unfoldable pub new_task_runner :
      Environment Ctx W → TaskConfig → W → Option (Result (TaskRunner Ctx W) × W)
  unfolding is_empty check_requirements parse_task
  new_task_runner env cfg w =
      if is_empty cfg.spec.prompt
      then some (err "prompt.inline or prompt.file must be set on a task to run it", w)
      else elim env.managers [
        | none ↦ some (err "failed to get extension manager from context", w)
        | some m ↦ elim (check_requirements m cfg.spec.requires) [
          | err e ↦ some (err e, w)
          | ok a ↦ parse_task env cfg a w
        ]
      ]
