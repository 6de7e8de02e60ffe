-- ===== src/Agent/Kept.antt =====
-- That `ExtractOutputSteps` of pkg/agent/runner.go keeps the text of the updates, and its order.
use mcpchecker.Prelude.Assoc.{insert, lookup}
use mcpchecker.Agent.Texts.{
  written, Closed, Running, chunk, flush-Closed, idle_text, pending_texts, pending_texts-snoc,
  texts, write-Running, write-written,
}
use mcpchecker.Agent.Steps.{
  text_step, call_step, Builder, Pending, empty_builder, extract_output_steps, flush, merge_call,
  on_call, on_update, resolve, steps_loop, write,
}
use mcpchecker.Prelude.{
  Bool-cases, List, Option, Option-cases, String, [], ap, false, inl, inr, map, none, refl, some,
  str_append, str_append-nil, str_append_assoc, str_eq, str_nil-append, sym, ◌++◌, ◌∙◌, ◌∷◌, ◌≡◌,
}
use mcpchecker.Agent.{
  ToolCallSummary, AcpToolCall, AcpToolCallUpdate, chunk_text, empty_summary, extract_final_message,
  extract_text, extract_thinking, merge_update, summary_of, SessionUpdate,
}

module _ (t : String) (n : str_eq "" t ≡ false) where
  -- A step of a tool call adds no text.
  push_call :
      (w id : String) (m : List (String × ToolCallSummary)) (c : Builder)
      → Closed t w c
      → Closed t w (record c { calls = m; steps = c.steps ++ call_step id ∷ [] })
  push_call w id m c k = record {
    ended = k.ended;
    blank = k.blank;
    same =
        idle_text t n (c.steps ++ call_step id ∷ []) c.current_type c.buf k.ended
        ∙ pending_texts-snoc t c.steps (call_step id)
        ∙ str_append-nil (pending_texts t c.steps)
        ∙ sym (idle_text t n c.steps c.current_type c.buf k.ended)
        ∙ k.same;
  }

  -- What a tool call keeps.
  abbrev Keeps : Builder → Builder → Type 0
  Keeps b c = (written t c ≡ written t b) × Running c

  Closed-Keeps : (b c : Builder) → Closed t (written t b) c → Keeps b c
  Closed-Keeps b c k = (k.same, inl (k.ended, k.blank))

  on_call-Keeps : (o : Option AcpToolCall) (b : Builder) → Running b → Keeps b (on_call o b)
  unfolding on_call
  on_call-Keeps none b r = (refl, r)
  on_call-Keeps (some tc) b r =
      let k = flush-Closed t n b r in
      elim (Option-cases (lookup tc.tool_call_id (flush b).calls)) [
        | inl e ↦
            rw (on_call, e)
              (Closed-Keeps b _ (
                push_call (written t b) tc.tool_call_id
                  (insert tc.tool_call_id (summary_of tc) (flush b).calls) (flush b) k))
        | inr (old, e) ↦
            rw (on_call, e)
              (Closed-Keeps b
                (record (flush b) {
                  calls = insert tc.tool_call_id (merge_call tc old) (flush b).calls;
                })
                (record { ended = k.ended; blank = k.blank; same = k.same }))
      ]

  on_update-Keeps :
      (o : Option AcpToolCallUpdate) (b : Builder) → Running b → Keeps b (on_update o b)
  unfolding on_update
  on_update-Keeps none b r = (refl, r)
  on_update-Keeps (some u) b r = elim (Option-cases (lookup u.tool_call_id b.calls)) [
    | inl e ↦
        rw (on_update, e)
          (Closed-Keeps b _ (
            push_call (written t b) u.tool_call_id
              (insert u.tool_call_id (merge_update u empty_summary) (flush b).calls) (flush b)
              (flush-Closed t n b r)))
    | inr (old, e) ↦ rw (on_update, e) (refl, r)
  ]

  -- The text of type `t` of all updates.
  abbrev all_text : List SessionUpdate → String
  all_text [] = ""
  all_text (u ∷ us) =
      str_append
        (str_append (chunk t "thinking" (chunk_text u.agent_thought_chunk))
          (chunk t "message" (chunk_text u.agent_message_chunk)))
        (all_text us)

  steps_loop-written :
      (us : List SessionUpdate) (b : Builder)
      → Running b
      → (written t (steps_loop us b) ≡ str_append (written t b) (all_text us))
        × Running (steps_loop us b)
  unfolding steps_loop
  steps_loop-written [] b r = (sym (str_append-nil (written t b)), r)
  steps_loop-written (u ∷ us) b r =
      let thought = chunk_text u.agent_thought_chunk in
      let message = chunk_text u.agent_message_chunk in
      let c = write "thinking" thought b in
      let d = write "message" message c in
      let q = write-Running t n "thinking" thought b (inl refl) r in
      let (x, v) =
        on_call-Keeps u.tool_call d (write-Running t n "message" message c (inr refl) q) in
      let (y, z) = on_update-Keeps u.tool_call_update (on_call u.tool_call d) v in
      let (e, last) =
        steps_loop-written us (on_update u.tool_call_update (on_call u.tool_call d)) z in
      (
        e
            ∙ ap (λ s. str_append s (all_text us))
                (y
                  ∙ x
                  ∙ write-written t n "message" message c q
                  ∙ ap (λ s. str_append s (chunk t "message" message))
                      (write-written t n "thinking" thought b r)
                  ∙ str_append_assoc (written t b) (chunk t "thinking" thought)
                      (chunk t "message" message))
            ∙ str_append_assoc (written t b) _ (all_text us),
        last,
      )

  texts-resolve :
      str_eq "tool_call" t ≡ false
      → (m : List (String × ToolCallSummary)) (ps : List Pending)
      → texts t (map (resolve m) ps) ≡ pending_texts t ps
  unfolding resolve
  texts-resolve k m [] = refl
  texts-resolve k m (text_step u s ∷ ps) = elim (Bool-cases (str_eq u t)) [
    | inl q ↦ rw q (ap (str_append s) (texts-resolve k m ps))
    | inr q ↦ rw q (texts-resolve k m ps ∙ sym (str_nil-append (pending_texts t ps)))
  ]
  texts-resolve k m (call_step id ∷ ps) =
      rw k (texts-resolve k m ps ∙ sym (str_nil-append (pending_texts t ps)))

  pub extract-texts :
      str_eq "tool_call" t ≡ false
      → (us : List SessionUpdate) → texts t (extract_output_steps us) ≡ all_text us
  unfolding extract_output_steps
  extract-texts k us =
      let (e, r) = steps_loop-written us empty_builder (inl (refl, refl)) in
      let c = flush-Closed t n (steps_loop us empty_builder) r in
      let b = flush (steps_loop us empty_builder) in
      texts-resolve k b.calls b.steps
      ∙ sym (idle_text t n b.steps b.current_type b.buf c.ended)
      ∙ c.same
      ∙ e
      ∙ ap (λ s. str_append s (all_text us)) (idle_text t n [] "" "" refl)
      ∙ str_nil-append (all_text us)

off_message : (o : Option String) → chunk "message" "thinking" o ≡ ""
off_message none = refl
off_message (some s) = refl

off_thinking : (o : Option String) → chunk "thinking" "message" o ≡ ""
off_thinking none = refl
off_thinking (some s) = refl

message_text :
    (us : List SessionUpdate)
    → all_text "message" refl us ≡ extract_text (λ u. u.agent_message_chunk) us
unfolding extract_text
message_text [] = refl
message_text (u ∷ us) = elim (Option-cases (chunk_text u.agent_message_chunk)) [
  | inl e ↦
      rw (extract_text, e, off_message (chunk_text u.agent_thought_chunk))
        (str_nil-append (all_text "message" refl us) ∙ message_text us)
  | inr (s, e) ↦
      rw (extract_text, e, off_message (chunk_text u.agent_thought_chunk))
        (ap (λ v. str_append v (all_text "message" refl us)) (str_nil-append s)
          ∙ ap (str_append s) (message_text us))
]

thinking_text :
    (us : List SessionUpdate)
    → all_text "thinking" refl us ≡ extract_text (λ u. u.agent_thought_chunk) us
unfolding extract_text
thinking_text [] = refl
thinking_text (u ∷ us) = elim (Option-cases (chunk_text u.agent_thought_chunk)) [
  | inl e ↦
      rw (extract_text, e, off_thinking (chunk_text u.agent_message_chunk))
        (str_nil-append (all_text "thinking" refl us) ∙ thinking_text us)
  | inr (s, e) ↦
      rw (extract_text, e, off_thinking (chunk_text u.agent_message_chunk))
        (ap (λ v. str_append v (all_text "thinking" refl us)) (str_append-nil s)
          ∙ ap (str_append s) (thinking_text us))
]

-- For every sequence of updates, the contents of the steps of type `message` that `ExtractOutputSteps`
-- returns are, one after the other, the text that `ExtractFinalMessage` returns, and those of type
-- `thinking` the text that `ExtractThinking` returns.
pub extract_output_steps_keeps_text :
    (us : List SessionUpdate)
    → (texts "message" (extract_output_steps us) ≡ extract_final_message us)
      × (texts "thinking" (extract_output_steps us) ≡ extract_thinking us)
unfolding extract_final_message extract_thinking
extract_output_steps_keeps_text us = (
  extract-texts "message" refl refl us ∙ message_text us,
  extract-texts "thinking" refl refl us ∙ thinking_text us,
)
