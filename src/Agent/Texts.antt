-- ===== src/Agent/Texts.antt =====
-- That the steps of pkg/agent/runner.go lose no text of the updates: `ExtractOutputSteps` against
-- `ExtractFinalMessage` and `ExtractThinking`.
use mathlib.Core.Path.{subst}
use mcpchecker.Agent.Steps.{write, call_step, text_step, Builder, Pending, flush}
use mcpchecker.Prelude.{
  if_false, if_true, Option, none, some, ◌||◌, Bool-cases, eq_iff, false, refl, List, String, [],
  ap, if◌then◌else◌, inl, inr, str_append, str_append-nil, str_append_assoc, str_eq, str_nil-append,
  sym, ◌++◌, ◌∙◌, ◌∷◌, ◌≡◌, ◌⊎◌,
}
use mcpchecker.Agent.{OutputStep}

-- The contents of the steps of one type, one after the other.
abbrev pub texts : String → List OutputStep → String
texts t [] = ""
texts t (s ∷ steps) =
    let rest = texts t steps in if str_eq s.step_type t then str_append s.content rest else rest

abbrev pub only : String → String → String → String
only t u s = if str_eq u t then s else ""

abbrev pub pending_text : String → Pending → String
pending_text t (text_step u s) = only t u s
pending_text t (call_step id) = ""

abbrev pub pending_texts : String → List Pending → String
pending_texts t [] = ""
pending_texts t (p ∷ ps) = str_append (pending_text t p) (pending_texts t ps)

pub pending_texts-snoc :
    (t : String) (ps : List Pending) (p : Pending)
    → pending_texts t (ps ++ p ∷ []) ≡ str_append (pending_texts t ps) (pending_text t p)
pending_texts-snoc t [] p =
    str_append-nil (pending_text t p) ∙ sym (str_nil-append (pending_text t p))
pending_texts-snoc t (q ∷ ps) p =
    ap (str_append (pending_text t q)) (pending_texts-snoc t ps p)
    ∙ sym (str_append_assoc (pending_text t q) (pending_texts t ps) (pending_text t p))

-- What a builder has of a type, in its steps and in its buffer.
abbrev pub written : String → Builder → String
written t b = str_append (pending_texts t b.steps) (only t b.current_type b.buf)

-- The type of the current run; between runs the buffer is empty.
abbrev pub Running : Builder → Type 0
Running b =
    ((b.current_type ≡ "") × (b.buf ≡ ""))
    ⊎ (b.current_type ≡ "thinking")
    ⊎ (b.current_type ≡ "message")

only_empty : (t u : String) → only t u "" ≡ ""
only_empty t u = elim (Bool-cases (str_eq u t)) [ inl q ↦ rw q refl | inr q ↦ rw q refl ]

only_append : (t u x y : String) → only t u (str_append x y) ≡ str_append (only t u x) (only t u y)
only_append t u x y = elim (Bool-cases (str_eq u t)) [
  | inl q ↦ rw q refl
  | inr q ↦ rw q (sym (str_nil-append ""))
]

-- A builder between two runs, that has the text `w`.
pub record Closed (t w : String) (c : Builder) : Type 0 where
  pub ended : c.current_type ≡ ""
  pub blank : c.buf ≡ ""
  pub same : written t c ≡ w

-- The branch of `flush` in which text is at hand.
abbrev close : Builder → Builder
close b = if str_eq b.buf "" then record b { current_type = "" } else record b {
  steps = b.steps ++ text_step b.current_type b.buf ∷ [];
  current_type = "";
  buf = "";
}

flush_text :
    (b : Builder) → (b.current_type ≡ "thinking") ⊎ (b.current_type ≡ "message") → flush b ≡ close b
unfolding flush
flush_text b (inl h) =
    if_false _ (ap (λ c. str_eq c "") h)
    ∙ if_true _ (ap (λ c. str_eq c "thinking" || str_eq c "message") h)
flush_text b (inr h) =
    if_false _ (ap (λ c. str_eq c "") h)
    ∙ if_true _ (ap (λ c. str_eq c "thinking" || str_eq c "message") h)

-- What one update adds.
abbrev pub chunk : String → String → Option String → String
chunk t u none = ""
chunk t u (some s) = only t u s

module _ (t : String) (n : str_eq "" t ≡ false) where
  pub idle_text :
      (ps : List Pending) (u s : String)
      → u ≡ ""
      → str_append (pending_texts t ps) (only t u s) ≡ pending_texts t ps
  idle_text ps u s e =
      ap (str_append (pending_texts t ps)) (if_false _ (ap (λ v. str_eq v t) e ∙ n))
      ∙ str_append-nil (pending_texts t ps)

  close-Closed : (b : Builder) → Closed t (written t b) (close b)
  close-Closed b = elim (Bool-cases (str_eq b.buf "")) [
    | inl q ↦ rw q (record {
      ended = refl;
      blank = (eq_iff b.buf "").0 q;
      same =
          idle_text b.steps "" b.buf refl
          ∙ sym (str_append-nil (pending_texts t b.steps))
          ∙ ap (str_append (pending_texts t b.steps)) (
              sym
                (ap (only t b.current_type) ((eq_iff b.buf "").0 q) ∙ only_empty t b.current_type));
    })
    | inr q ↦ rw q (record {
      ended = refl;
      blank = refl;
      same =
          idle_text (b.steps ++ text_step b.current_type b.buf ∷ []) "" "" refl
          ∙ pending_texts-snoc t b.steps (text_step b.current_type b.buf);
    })
  ]

  pub flush-Closed : (b : Builder) → Running b → Closed t (written t b) (flush b)
  unfolding flush
  flush-Closed b (inl h) =
      subst (Closed t (written t b)) (sym (if_true _ (ap (λ c. str_eq c "") h.0)))
        (record { ended = h.0; blank = h.1; same = refl })
  flush-Closed b (inr h) = subst (Closed t (written t b)) (sym (flush_text b h)) (close-Closed b)

  -- A chunk of type `u` is written at the end.
  pub write-written :
      (u : String) (o : Option String) (b : Builder)
      → Running b
      → written t (write u o b) ≡ str_append (written t b) (chunk t u o)
  unfolding write
  write-written u none b r = sym (str_append-nil (written t b))
  write-written u (some s) b r = elim (Bool-cases (str_eq b.current_type u)) [
    | inl q ↦ rw q (
        ap (str_append (pending_texts t b.steps)) (only_append t b.current_type b.buf s)
        ∙ sym (
            str_append_assoc (pending_texts t b.steps) (only t b.current_type b.buf)
              (only t b.current_type s))
        ∙ ap (λ v. str_append (written t b) (only t v s)) ((eq_iff b.current_type u).0 q))
    | inr q ↦
        let c = flush-Closed b r in
        rw q (
          ap (λ v. str_append (pending_texts t (flush b).steps) (only t u v))
            (ap (λ v. str_append v s) c.blank ∙ str_nil-append s)
          ∙ ap (λ v. str_append v (only t u s))
              (sym (idle_text (flush b).steps (flush b).current_type (flush b).buf c.ended)
                ∙ c.same))
  ]

  pub write-Running :
      (u : String) (o : Option String) (b : Builder)
      → (u ≡ "thinking") ⊎ (u ≡ "message")
      → Running b
      → Running (write u o b)
  unfolding write
  write-Running u none b k r = r
  write-Running u (some s) b k r = elim (Bool-cases (str_eq b.current_type u)) [
    | inl q ↦ rw q (
        inr
          (subst (λ v. (v ≡ "thinking") ⊎ (v ≡ "message")) (sym ((eq_iff b.current_type u).0 q)) k))
    | inr q ↦ rw q (inr k)
  ]
