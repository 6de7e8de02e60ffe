-- ===== src/Task/Outputs.antt =====
-- The outputs that the setup of a task leaves for its cleanup and its prompt.
use mcpchecker.Task.Trace.{given_input, Trace-first}
use mcpchecker.Task.Verdict.{run_steps-IsReport}
use mathlib.Core.Path.{subst}
use mcpchecker.Prelude.{
  get_elem?, ℕ, Bool, Option-cases, ap, eq_iff, if_false, if_true, not, sym, true, ◌+◌, ◌∙◌,
  Bool-cases, List, Option, String, [], false, if◌then◌else◌, inl, inr, none, refl, some, str_eq,
  ◌&&◌, ◌++◌, ◌∷◌, ◌≡◌,
}
use mcpchecker.Task.Phases.{
  cleanup, new_output, failed_step, setup, copy_outputs, run_steps, add_step, has_any, note_success,
  remember,
}
use mcpchecker.Prelude.Assoc.{insert-DistinctKeys, DistinctKeys, insert, lookup-insert_if, lookup}
use mcpchecker.Task.{
  AgentContext, StepInput, StepRunner, PhaseOutput, StepOutput, StepOutputs, Strings, TaskRunner,
}

-- The outputs of the last step of a type that succeeded with any.
abbrev pub outputs_of : String → Option StepOutput → Option Strings → Option Strings
outputs_of t none before = before
outputs_of t (some r) before =
    if r.success && has_any r.outputs && str_eq r.step_type t then some r.outputs else before

abbrev pub last_outputs : String → List (Option StepOutput) → Option Strings → Option Strings
last_outputs t [] before = before
last_outputs t (res ∷ rest) before = last_outputs t rest (outputs_of t res before)

last_outputs-snoc :
    (t : String) (xs : List (Option StepOutput)) (x : Option StepOutput) (o : Option Strings)
    → last_outputs t (xs ++ x ∷ []) o ≡ outputs_of t x (last_outputs t xs o)
last_outputs-snoc t [] x o = refl
last_outputs-snoc t (y ∷ xs) x o = last_outputs-snoc t xs x (outputs_of t y o)

module _ (t : String) (n : str_eq "" t ≡ false) where
  lookup_kept :
      (a b : Bool) (ty : String) (os : Strings) (m : StepOutputs)
      → lookup t (if a && b && not (str_eq ty "") then insert ty os m else m)
        ≡ (if a && b && str_eq ty t then some os else lookup t m)
  lookup_kept true true ty os m = elim (Bool-cases (str_eq ty "")) [
    | inl q ↦ rw q (sym (if_false (some os) (ap (λ v. str_eq v t) ((eq_iff ty "").0 q) ∙ n)))
    | inr q ↦ rw q (lookup-insert_if ty t os m)
  ]
  lookup_kept true false ty os m = refl
  lookup_kept false b ty os m = refl

  lookup-remember :
      (res : Option StepOutput) (m : StepOutputs)
      → lookup t (remember res m) ≡ outputs_of t res (lookup t m)
  unfolding remember
  lookup-remember none m = refl
  lookup-remember (some r) m = lookup_kept r.success (has_any r.outputs) r.step_type r.outputs m

  note_steps :
      (res : Option StepOutput) (out : PhaseOutput)
      → (note_success res (add_step res out)).steps ≡ out.steps ++ res ∷ []
  unfolding note_success add_step
  note_steps none out = refl
  note_steps (some r) out = elim (Bool-cases (not r.success)) [
    | inl q ↦ ap (λ o. o.steps) (if_true (add_step (some r) out) q)
    | inr q ↦ ap (λ o. o.steps) (if_false (record (add_step (some r) out) { success = false }) q)
  ]

  -- With no error, the map holds the last outputs of the type.
  run_steps-lookup :
      {Ctx W : Type 0} (name dir : String) (agent : Option AgentContext) (ctx : Ctx) (i : ℕ)
      (steps : List (StepRunner Ctx W)) (out : PhaseOutput) (m : StepOutputs) (w : W)
      (before : Option Strings)
      → lookup t m ≡ last_outputs t out.steps before
      → let p = (run_steps name dir agent ctx i steps out m w).0 in
        p.error ≡ none → lookup t p.outputs ≡ last_outputs t p.out.steps before
  unfolding run_steps
  run_steps-lookup name dir agent ctx i [] out m w before e h = e
  run_steps-lookup name dir agent ctx i (s ∷ steps) out m w before e h =
      let input : StepInput = record { workdir = dir; agent = agent; step_outputs = m } in
      let res = (s ctx input w).0 in
      let w1 = (s ctx input w).2 in
      elim (Option-cases (s ctx input w).1) [
        | inl q ↦
            rw (run_steps, q)
              (run_steps-lookup name dir agent ctx (i + 1) steps
                (note_success res (add_step res out)) (remember res m) w1 before
                (lookup-remember res m
                  ∙ ap (outputs_of t res) e
                  ∙ sym (last_outputs-snoc t out.steps res before)
                  ∙ ap (λ l. last_outputs t l before) (sym (note_steps res out)))
                (rw (run_steps, q) at h))
        | inr (x, q) ↦ absurd (cc (rw (run_steps, q) at h))
      ]

abbrev or_else : Option Strings → Option Strings → Option Strings
or_else (some v) o = some v
or_else none o = o

or_else-none : (o : Option Strings) → or_else o none ≡ o
or_else-none (some v) = refl
or_else-none none = refl

lookup-copy_outputs :
    (t : String) (m n : StepOutputs)
    → DistinctKeys m
    → lookup t (copy_outputs m n) ≡ or_else (lookup t m) (lookup t n)
unfolding copy_outputs lookup
lookup-copy_outputs t [] n d = refl
lookup-copy_outputs t ((k, v) ∷ m) n d = elim (Bool-cases (str_eq k t)) [
  | inl q ↦
      let e : lookup t m ≡ none = sym (ap (λ j. lookup j m) ((eq_iff k t).0 q)) ∙ d.0 in
      lookup-copy_outputs t m (insert k v n) d.1
      ∙ ap (λ o. or_else o (lookup t (insert k v n))) e
      ∙ lookup-insert_if k t v n
      ∙ if_true (lookup t n) q
      ∙ sym (ap (λ o. or_else o (lookup t n)) (if_true (lookup t m) q))
  | inr q ↦
      lookup-copy_outputs t m (insert k v n) d.1
      ∙ ap (or_else (lookup t m)) (lookup-insert_if k t v n ∙ if_false (some v) q)
      ∙ sym (ap (λ o. or_else o (lookup t n)) (if_false (some v) q))
]

remember-DistinctKeys :
    (res : Option StepOutput) (m : StepOutputs) → DistinctKeys m → DistinctKeys (remember res m)
unfolding remember
remember-DistinctKeys none m d = d
remember-DistinctKeys (some r) m d =
    elim (Bool-cases (r.success && has_any r.outputs && not (str_eq r.step_type ""))) [
      | inl q ↦
          subst DistinctKeys (sym (if_true m q)) (insert-DistinctKeys r.step_type r.outputs m d)
      | inr q ↦ subst DistinctKeys (sym (if_false (insert r.step_type r.outputs m) q)) d
    ]

run_steps-DistinctKeys :
    {Ctx W : Type 0} (name dir : String) (agent : Option AgentContext) (ctx : Ctx) (i : ℕ)
    (steps : List (StepRunner Ctx W)) (out : PhaseOutput) (m : StepOutputs) (w : W)
    → DistinctKeys m
    → DistinctKeys (run_steps name dir agent ctx i steps out m w).0.outputs
unfolding run_steps failed_step
run_steps-DistinctKeys name dir agent ctx i [] out m w d = d
run_steps-DistinctKeys name dir agent ctx i (s ∷ steps) out m w d =
    let input : StepInput = record { workdir = dir; agent = agent; step_outputs = m } in
    let res = (s ctx input w).0 in
    let w1 = (s ctx input w).2 in
    elim (Option-cases (s ctx input w).1) [
      | inl q ↦
          rw (run_steps, q)
            (run_steps-DistinctKeys name dir agent ctx (i + 1) steps
              (note_success res (add_step res out)) (remember res m) w1
              (remember-DistinctKeys res m d))
      | inr (x, q) ↦ rw (run_steps, q) d
    ]

run_steps-first :
    {Ctx W : Type 0} (name dir : String) (agent : Option AgentContext) (ctx : Ctx)
    (s : StepRunner Ctx W) (steps : List (StepRunner Ctx W)) (m : StepOutputs) (w : W)
    → get_elem? (run_steps name dir agent ctx 0 (s ∷ steps) new_output m w).0.out.steps 0
      ≡ some (s ctx (record { workdir = dir; agent = agent; step_outputs = m }) w).0
run_steps-first name dir agent ctx s steps m w =
    Trace-first dir agent ctx (run_steps-IsReport name dir agent ctx (s ∷ steps) m w).course

-- If the setup of a task returns no error and its cleanup has a step, then for each type of step,
-- which is not empty, the outputs that the setup leaves, and those that the first step of the
-- cleanup is given, whenever that runs, hold the outputs of the last step of the setup of that type
-- that succeeded with any; and nothing if there was none.
pub setup_outputs_last :
    {Ctx W : Type 0} (r : TaskRunner Ctx W) (ctx : Ctx) (w : W) (t : String) (s : StepRunner Ctx W)
    (steps : List (StepRunner Ctx W)) (later : Ctx) (v : W)
    → str_eq "" t ≡ false
    → r.cleanup ≡ s ∷ steps
    → (setup r ctx w).1 ≡ none
    → let after = (setup r ctx w).2 in
      let expected = last_outputs t (setup r ctx w).0.steps none in
      (lookup t after.setup_outputs ≡ expected)
      × ((m : StepOutputs) × (lookup t m ≡ expected)
          × (get_elem? (cleanup after later v).0.steps 0
              ≡ some (s later (given_input r.base_dir none m) v).0))
unfolding setup cleanup lookup
setup_outputs_last {Ctx} {W} r ctx w t s steps later v n c h =
    let p = run_steps "setup" r.base_dir none ctx 0 r.setup new_output [] w in
    let seeded : TaskRunner Ctx W = record r { setup_outputs = p.0.outputs } in
    let k : (setup r ctx w).2 ≡ seeded =
      ap (λ e. elim e as (λ _. TaskRunner Ctx W) [ none ↦ seeded | some x ↦ r ]) h in
    let e : lookup t p.0.outputs ≡ last_outputs t p.0.out.steps none =
      run_steps-lookup t n "setup" r.base_dir none ctx 0 r.setup new_output [] w none refl h in
    let d = run_steps-DistinctKeys "setup" r.base_dir none ctx 0 r.setup new_output [] w tt in
    let m = copy_outputs p.0.outputs [] in
    (
      ap (λ x. lookup t x.setup_outputs) k ∙ e,
      (
        m,
        lookup-copy_outputs t p.0.outputs [] d ∙ or_else-none (lookup t p.0.outputs) ∙ e,
        subst
            (λ x.
              get_elem? (cleanup x later v).0.steps 0
              ≡ some (s later (given_input r.base_dir none m) v).0)
            (sym k)
            (subst
              (λ l.
                get_elem? (run_steps "cleanup" r.base_dir none later 0 l new_output m v).0.out.steps
                  0
                ≡ some (s later (given_input r.base_dir none m) v).0)
              (sym c) (run_steps-first "cleanup" r.base_dir none later s steps m v)),
      ),
    )
