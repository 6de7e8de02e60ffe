-- ===== src/Run/Stepped.antt =====
-- What `executeTaskSteps` and the check of the deadline, of pkg/eval/runner.go, leave of a result.
use mcpchecker.Task.Phases.{verify}
use mcpchecker.Task.RunAgent.{run_agent}
use mcpchecker.Prelude.Int.{ℤ}
use mathlib.Core.Path.{subst}
use mcpchecker.Run.Single.{check_timeout, event, execute_task_steps, failed_with, is_expired}
use mcpchecker.Run.Execute.{Outside, note_agent, note_agent_error, note_verification}
use mcpchecker.Task.{AgentDetails, PhaseOutput, TaskRunner}
use mcpchecker.Run.Outcome.{
  Blank, Core, Honest, Verified, core, note_agent-core, note_verification-Judged,
}
use mcpchecker.Prelude.{
  Bool-cases, Option, Option-cases, String, [], ap, concat, if_false, if_true, inl, inr, none, not,
  refl, some, sym, true, ◌&&◌, ◌∙◌, ◌∷◌, ◌≡◌,
}
use mcpchecker.Run.{EvalTask, EvalResult}

-- What the steps of a task leave of the result that they begin with.
pub record Stepped (tc : EvalTask) (c d : Core) : Type 0 where
  pub named : d.name ≡ c.name
  pub placed : d.path ≡ c.path
  pub agent_ran : d.has_agent ≡ true
  pub cleanup_waits : d.has_cleanup ≡ c.has_cleanup
  pub unassessed : d.assertions ≡ c.assertions
  pub honest : Honest d

verified-Stepped :
    (tc : EvalTask) (out vout : PhaseOutput) (d : Option AgentDetails) (e : Option String)
    (r : EvalResult)
    → Blank (core r)
    → Stepped tc
        (core r)
        (core (note_verification vout e (note_agent d (record r { agent_output = some out }))))
verified-Stepped tc out vout d e r b =
    let r1 = note_agent d (record r { agent_output = some out }) in
    let same = note_agent-core d (record r { agent_output = some out }) in
    let j = note_verification-Judged vout e r1 in
    record {
      named = ap (λ c. c.name) j.shape ∙ ap (λ c. c.name) same;
      placed = ap (λ c. c.path) j.shape ∙ ap (λ c. c.path) same;
      agent_ran = ap (λ c. c.has_agent) j.shape ∙ ap (λ c. c.has_agent) same;
      cleanup_waits = ap (λ c. c.has_cleanup) j.shape ∙ ap (λ c. c.has_cleanup) same;
      unassessed = ap (λ c. c.assertions) j.shape ∙ ap (λ c. c.assertions) same;
      honest = λ h.
          let (x, y) = j.fair (sym (ap (λ c. c.passed) j.shape) ∙ h) in
          (
            ap (λ c. c.error) j.shape ∙ x ∙ ap (λ c. c.error) same ∙ b.no_error,
            ap (λ c. c.late) j.shape ∙ ap (λ c. c.late) same ∙ b.not_late,
            ap (λ c. c.agent_failed) j.shape ∙ ap (λ c. c.agent_failed) same ∙ b.not_failed,
            subst Verified (sym (ap (λ c. c.verified) j.shape)) y,
          );
    }

failed-Stepped :
    (tc : EvalTask) (out : PhaseOutput) (d : Option AgentDetails) (e : String) (r : EvalResult)
    → Stepped tc (core r) (core (note_agent_error d e (record r { agent_output = some out })))
unfolding note_agent_error
failed-Stepped tc out none e r = record {
  named = refl;
  placed = refl;
  agent_ran = refl;
  cleanup_waits = refl;
  unassessed = refl;
  honest = λ h. absurd (cc h);
}
failed-Stepped tc out (some d) e r = record {
  named = refl;
  placed = refl;
  agent_ran = refl;
  cleanup_waits = refl;
  unassessed = refl;
  honest = λ h. absurd (cc h);
}

module _ {Ctx Mgr W : Type 0} (o : Outside Ctx Mgr W) where
  pub execute_task_steps-Stepped :
      (tc : EvalTask) (ctx : Ctx) (runner : TaskRunner Ctx W) (mgr : Mgr) (r : EvalResult) (w : W)
      → Blank (core r)
      → Stepped tc (core r) (core (execute_task_steps o ctx runner mgr r w).0)
  unfolding execute_task_steps
  execute_task_steps-Stepped tc ctx runner mgr r w b =
      let running =
        event "task_running" (concat ("Running agent for task: " ∷ r.task_name ∷ [])) r in
      let answer = run_agent o.templates (o.agent_runner mgr) runner ctx (o.report running w) in
      let out = answer.0 in
      let done = note_agent out.agent_details (record r { agent_output = some out }) in
      let verifying =
        event "task_verifying" (concat ("Verifying task: " ∷ r.task_name ∷ [])) done in
      let checked = verify answer.2 ctx (o.report verifying answer.3) in
      elim (Option-cases answer.1) [
        | inl q ↦
            rw (execute_task_steps, q)
              (verified-Stepped tc out checked.0 out.agent_details checked.1 r b)
        | inr (e, q) ↦ rw (execute_task_steps, q) (failed-Stepped tc out out.agent_details e r)
      ]

  pub check_timeout-Stepped :
      (tc : EvalTask) (timeout : Option ℤ) (ctx : Ctx) (c : Core) (r : EvalResult) (w : W)
      → Stepped tc c (core r)
      → Stepped tc c (core (check_timeout o tc timeout ctx r w).0)
  unfolding check_timeout failed_with
  check_timeout-Stepped tc timeout ctx c r w s =
      elim (Bool-cases (is_expired o timeout ctx w && not r.timed_out)) [
        | inl q ↦
            subst (λ (a : EvalResult × W). Stepped tc c (core a.0)) (sym (if_true (r, w) q))
              (record {
                named = s.named;
                placed = s.placed;
                agent_ran = s.agent_ran;
                cleanup_waits = s.cleanup_waits;
                unassessed = s.unassessed;
                honest = λ h. absurd (cc h);
              })
        | inr q ↦ subst (λ (a : EvalResult × W). Stepped tc c (core a.0)) (sym (if_false _ q)) s
      ]
