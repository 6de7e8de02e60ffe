-- ===== src/Run/Outcome.antt =====
-- What the result of a task says, as pkg/eval/runner.go makes it.
use mcpchecker.Assert.Result.{CompositeAssertionResult}
use mcpchecker.Run.Execute.{
  extract_judge_results, is_positive64, judge_usage_loop, note_agent, note_judge_usage,
  note_verdict, note_verification, zero_usage,
}
use mcpchecker.Prelude.{
  Bool, Bool-cases, Option, String, [], ap, concat, false, if_false, if_true, inl, inr, none, not,
  refl, some, true, ◌||◌, ◌∙◌, ◌∷◌, ◌≡◌,
}
use mcpchecker.Task.{AgentDetails, PhaseOutput}
use mcpchecker.Run.{EvalTask, EvalResult}

abbrev pub is_some : {A : Type 0} → Option A → Bool
is_some none = false
is_some (some a) = true

-- The fields that say which task it is, whether it passed, which phases ran, and how it was assessed.
pub record Core : Type 0 where
  pub name : String
  pub path : String
  pub passed : Bool
  pub error : String
  pub late : Bool
  pub agent_failed : Bool
  pub verified : Option PhaseOutput
  pub has_agent : Bool
  pub has_cleanup : Bool
  pub assertions : Option CompositeAssertionResult
  pub all_passed : Bool

abbrev pub core : EvalResult → Core
core r = record {
  name = r.task_name;
  path = r.task_path;
  passed = r.task_passed;
  error = r.task_error;
  late = r.timed_out;
  agent_failed = r.agent_execution_error;
  verified = r.verify_output;
  has_agent = is_some r.agent_output;
  has_cleanup = is_some r.cleanup_output;
  assertions = r.assertion_results;
  all_passed = r.all_assertions_passed;
}

abbrev pub Verified : Option PhaseOutput → Type 0
Verified none = ⊥
Verified (some out) = out.success ≡ true

-- A task that passed has no error, kept its time, ran its agent, and was verified.
abbrev pub Honest : Core → Type 0
Honest c =
    c.passed ≡ true
    → (c.error ≡ "") × (c.late ≡ false) × (c.agent_failed ≡ false) × Verified c.verified

-- Before the verification: nothing is decided.
pub record Blank (c : Core) : Type 0 where
  pub not_passed : c.passed ≡ false
  pub no_error : c.error ≡ ""
  pub not_late : c.late ≡ false
  pub not_failed : c.agent_failed ≡ false

-- The task that a result is of, the phases that it has, and what is left as it was.
pub record Of (tc : EvalTask) (agent cleanup : Bool) (c : Core) : Type 0 where
  pub named : c.name ≡ tc.spec.metadata.name
  pub placed : c.path ≡ tc.path
  pub agent_ran : c.has_agent ≡ agent
  pub cleanup_ran : c.has_cleanup ≡ cleanup

pub note_agent-core : (d : Option AgentDetails) (r : EvalResult) → core (note_agent d r) ≡ core r
unfolding note_agent
note_agent-core none r = refl
note_agent-core (some d) r = refl

note_judge_usage-core :
    (out : PhaseOutput) (r : EvalResult) → core (note_judge_usage out r) ≡ core r
unfolding note_judge_usage
note_judge_usage-core out r =
    let usage = judge_usage_loop out.steps zero_usage in
    elim (Bool-cases (is_positive64 usage.input_tokens || is_positive64 usage.output_tokens)) [
      | inl q ↦ ap core (if_true r q)
      | inr q ↦ ap core (if_false (record r { judge_token_usage = some usage }) q)
    ]

abbrev pub with_verdict : Bool → String → PhaseOutput → Core → Core
with_verdict passed error out c = record c { passed = passed; error = error; verified = some out }

-- The deciding fields with a verdict: it is positive only if the error is as it was and `out` a success.
pub record Judged (out : PhaseOutput) (c d : Core) : Type 0 where
  pub passed : Bool
  pub error : String
  pub shape : d ≡ with_verdict passed error out c
  pub fair : passed ≡ true → (error ≡ c.error) × (out.success ≡ true)

not-true : (b : Bool) → not b ≡ false → b ≡ true
not-true true e = refl
not-true false e = cc e

note_verdict-Judged :
    (e : Option String) (out : PhaseOutput) (r : EvalResult)
    → r.verify_output ≡ some out
    → Judged out (core r) (core (note_verdict e out r))
unfolding note_verdict
note_verdict-Judged (some e) out r v = record {
  passed = false;
  error = concat ("verification failed: " ∷ e ∷ []);
  shape =
      ap
        (λ x. record (core r) {
          passed = false;
          error = concat ("verification failed: " ∷ e ∷ []);
          verified = x;
        })
        v;
  fair = λ h. absurd (cc h);
}
note_verdict-Judged none out r v = elim (Bool-cases (not out.success)) [
  | inl q ↦ record {
    passed = false;
    error = "one or more verification steps failed";
    shape =
        ap core (if_true (record r { task_passed = true }) q)
        ∙ ap
            (λ x. record (core r) {
              passed = false;
              error = "one or more verification steps failed";
              verified = x;
            })
            v;
    fair = λ h. absurd (cc h);
  }
  | inr q ↦ record {
    passed = true;
    error = r.task_error;
    shape = ap core (if_false _ q) ∙ ap (λ x. record (core r) { passed = true; verified = x }) v;
    fair = λ h. (refl, not-true out.success q);
  }
]

note_judge_usage-verified :
    (out : PhaseOutput) (r : EvalResult) → (note_judge_usage out r).verify_output ≡ r.verify_output
note_judge_usage-verified out r = ap (λ c. c.verified) (note_judge_usage-core out r)

pub note_verification-Judged :
    (out : PhaseOutput) (e : Option String) (r : EvalResult)
    → Judged out (core r) (core (note_verification out e r))
unfolding note_verification extract_judge_results
note_verification-Judged out e r =
    let r1 = record r { verify_output = some out } in
    let r2 = note_judge_usage out r1 in
    let j = note_verdict-Judged e out r2 (note_judge_usage-verified out r1) in
    let same = note_judge_usage-core out r1 in
    record {
      passed = j.passed;
      error = j.error;
      shape = j.shape ∙ ap (with_verdict j.passed j.error out) same;
      fair = λ h. let (x, y) = j.fair h in (x ∙ ap (λ c. c.error) same, y);
    }
