-- ===== src/Task/Verdict.antt =====
-- What the phases of pkg/task/run.go report: success, and the step that stopped them.
use mcpchecker.Task.Trace.{stopped, ran, all_ran, Trace}
use mathlib.Core.Path.{subst}
use mcpchecker.Prelude.{
  append-nil, append_assoc, false, ◌∙◌, ap, if_false, if_true, not, sym, ℕ, All, Bool-cases, List,
  Option, Option-cases, String, [], concat, inl, inr, none, refl, show_ℕ, some, true, ◌++◌, ◌+◌,
  ◌↔◌, ◌∷◌, ◌≡◌,
}
use mcpchecker.Task.Phases.{
  Phase, cleanup, copy_outputs, new_output, setup, verify, remember, add_step, failed_step,
  note_success, run_steps,
}
use mcpchecker.Task.{
  StepInput, AgentContext, PhaseOutput, StepOutput, StepOutputs, StepRunner, TaskRunner,
}

-- A nil output is no failure.
abbrev pub StepOk : Option StepOutput → Type 0
StepOk none = Unit
StepOk (some r) = r.success ≡ true

-- The error of a phase that stopped at a step.
abbrev pub stop_error : String → Option (ℕ × String) → Option String
stop_error name none = none
stop_error name (some (k, e)) = some (concat (name ∷ "[" ∷ show_ℕ k ∷ "] failed: " ∷ e ∷ []))

abbrev pub stop_text : Option (ℕ × String) → String
stop_text none = ""
stop_text (some (k, e)) = e

-- The report of a phase over its steps, which start with the outputs `m` in the world `w`: it keeps
-- what they answered, it is a success if and only if none had an error and no answer says failure, and
-- its error is that of the step that stopped it, under the phase's name.
pub record IsReport {Ctx W : Type 0} (name dir : String) (agent : Option AgentContext) (ctx : Ctx)
    (steps : List (StepRunner Ctx W)) (m : StepOutputs) (w : W) (out : PhaseOutput)
    (error : Option String) (after : W) : Type 0 where
  pub stop : Option (ℕ × String)
  pub outputs : StepOutputs
  pub course : Trace dir agent ctx 0 steps m w out.steps stop outputs after
  pub success_iff : (out.success ≡ true) ↔ ((stop ≡ none) × All StepOk out.steps)
  pub error_named : error ≡ stop_error name stop
  pub error_kept : out.error ≡ stop_text stop

All-snoc :
    (xs : List (Option StepOutput)) (x : Option StepOutput)
    → All StepOk (xs ++ x ∷ []) ↔ (All StepOk xs × StepOk x)
All-snoc [] x = (λ h. (tt, h.0), λ h. (h.1, tt))
All-snoc (y ∷ xs) x =
    let (f, g) = All-snoc xs x in (λ h. ((h.0, (f h.1).0), (f h.1).1), λ h. (h.0.0, g (h.0.1, h.1)))

-- While a phase has met no error.
abbrev Agrees : PhaseOutput → Type 0
Agrees out = (out.success ≡ true) ↔ All StepOk out.steps

note_success-Agrees :
    (res : Option StepOutput) (out : PhaseOutput)
    → Agrees out
    → Agrees (note_success res (add_step res out))
      × ((note_success res (add_step res out)).steps ≡ out.steps ++ res ∷ [])
unfolding note_success add_step
note_success-Agrees none out a =
    let (f, g) = All-snoc out.steps none in ((λ h. g (a.0 h, tt), λ h. a.1 (f h).0), refl)
note_success-Agrees (some r) out a =
    let (f, g) = All-snoc out.steps (some r) in
    elim (Bool-cases r.success) [
      | inl q ↦
          subst (λ o. Agrees o × (o.steps ≡ out.steps ++ some r ∷ [])) (sym (if_false _ (ap not q)))
            ((λ h. g (a.0 h, q), λ h. a.1 (f h).0), refl)
      | inr q ↦
          subst (λ o. Agrees o × (o.steps ≡ out.steps ++ some r ∷ [])) (sym (if_true _ (ap not q)))
            ((λ h. absurd (cc h), λ h. absurd (cc ((f h).1, q))), refl)
    ]

-- What a run of the steps from the `i`-th on adds to the answers before it.
pub record Extends {Ctx W : Type 0} (name dir : String) (agent : Option AgentContext) (ctx : Ctx)
    (i : ℕ) (steps : List (StepRunner Ctx W)) (m : StepOutputs) (w : W)
    (before : List (Option StepOutput)) (p : Phase × W) : Type 0 where
  pub stop : Option (ℕ × String)
  pub answers : List (Option StepOutput)
  pub course : Trace dir agent ctx i steps m w answers stop p.0.outputs p.1
  pub kept : p.0.out.steps ≡ before ++ answers
  pub success_iff : (p.0.out.success ≡ true) ↔ ((stop ≡ none) × All StepOk p.0.out.steps)
  pub error_named : p.0.error ≡ stop_error name stop
  pub error_kept : p.0.out.error ≡ stop_text stop

note_success-error :
    (res : Option StepOutput) (out : PhaseOutput)
    → (note_success res (add_step res out)).error ≡ out.error
unfolding note_success add_step
note_success-error none out = refl
note_success-error (some r) out = elim (Bool-cases (not r.success)) [
  | inl q ↦ ap (λ o. o.error) (if_true (add_step (some r) out) q)
  | inr q ↦ ap (λ o. o.error) (if_false (record (add_step (some r) out) { success = false }) q)
]

run_steps-Extends :
    {Ctx W : Type 0} (name dir : String) (agent : Option AgentContext) (ctx : Ctx) (i : ℕ)
    (steps : List (StepRunner Ctx W)) (out : PhaseOutput) (m : StepOutputs) (w : W)
    → Agrees out
    → out.error ≡ ""
    → Extends name dir agent ctx i steps m w out.steps
        (run_steps name dir agent ctx i steps out m w)
unfolding run_steps failed_step add_step
run_steps-Extends name dir agent ctx i [] out m w a n = record {
  stop = none;
  answers = [];
  course = all_ran;
  kept = sym (append-nil out.steps);
  success_iff = (λ h. (refl, a.0 h), λ h. a.1 h.1);
  error_named = refl;
  error_kept = n;
}
run_steps-Extends name dir agent ctx i (s ∷ steps) out m w a n =
    let input : StepInput = record { workdir = dir; agent = agent; step_outputs = m } in
    let res = (s ctx input w).0 in
    let w1 = (s ctx input w).2 in
    let (b, e) = note_success-Agrees res out a in
    elim (Option-cases (s ctx input w).1) [
      | inl q ↦
          let more =
            run_steps-Extends name dir agent ctx (i + 1) steps (note_success res (add_step res out))
              (remember res m) w1 b (note_success-error res out ∙ n) in
          rw (run_steps, q)
            (record {
              stop = more.stop;
              answers = res ∷ more.answers;
              course = ran q more.course;
              kept =
                  more.kept
                  ∙ ap (λ l. l ++ more.answers) e
                  ∙ append_assoc out.steps (res ∷ []) more.answers;
              success_iff = more.success_iff;
              error_named = more.error_named;
              error_kept = more.error_kept;
            })
      | inr (x, q) ↦
          rw (run_steps, q)
            (record {
              stop = some (i, x);
              answers = res ∷ [];
              course = stopped x q;
              kept = refl;
              success_iff = (λ h. absurd (cc h), λ h. absurd (cc h.0));
              error_named = refl;
              error_kept = refl;
            })
    ]

pub run_steps-IsReport :
    {Ctx W : Type 0} (name dir : String) (agent : Option AgentContext) (ctx : Ctx)
    (steps : List (StepRunner Ctx W)) (m : StepOutputs) (w : W)
    → let (p, v) = run_steps name dir agent ctx 0 steps new_output m w in
      IsReport name dir agent ctx steps m w p.out p.error v
run_steps-IsReport name dir agent ctx steps m w =
    let x = run_steps-Extends name dir agent ctx 0 steps new_output m w (λ _. tt, λ _. refl) refl in
    let p = run_steps name dir agent ctx 0 steps new_output m w in
    record {
      stop = x.stop;
      outputs = p.0.outputs;
      course =
          subst (λ l. Trace dir agent ctx 0 steps m w l x.stop p.0.outputs p.1) (sym x.kept)
            x.course;
      success_iff = x.success_iff;
      error_named = x.error_named;
      error_kept = x.error_kept;
    }

-- Whatever their steps do, setup, cleanup and verification each run their steps in order until one
-- has an error, each in the world that the one before it left and with the outputs that are kept
-- until then; the report holds exactly what those steps answered, it is a success if and only if
-- none had an error and no answer says failure, and its error is that of the step that stopped the
-- phase, under the phase's name and the step's index.
pub phases-IsReport :
    {Ctx W : Type 0} (r : TaskRunner Ctx W) (ctx : Ctx) (w : W)
    → let agent : AgentContext = record { prompt = r.prompt; output = r.output } in
      let s = setup r ctx w in
      let c = cleanup r ctx w in
      let v = verify r ctx w in
      IsReport "setup" r.base_dir none ctx r.setup [] w s.0 s.1 s.3
      × IsReport "cleanup" r.base_dir none ctx r.cleanup
          (copy_outputs r.setup_outputs [])
          w
          c.0
          c.1
          c.2
      × IsReport "verify" r.base_dir (some agent) ctx r.verify [] w v.0 v.1 v.2
unfolding setup cleanup verify
phases-IsReport r ctx w = (
  run_steps-IsReport "setup" r.base_dir none ctx r.setup [] w,
  run_steps-IsReport "cleanup" r.base_dir none ctx r.cleanup (copy_outputs r.setup_outputs []) w,
  run_steps-IsReport "verify" r.base_dir (some _) ctx r.verify [] w,
)
