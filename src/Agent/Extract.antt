-- ===== src/Agent/Extract.antt =====
-- `ExtractToolCalls` of pkg/agent/runner.go: one summary for each tool call, merged of its updates.
use mcpchecker.Prelude.Assoc.{lookup-insert_if, insert, lookup}
use mcpchecker.Prelude.{
  Bool-cases, eq_iff, sym, Option-cases, false, inl, inr, true, List, Option, String, [], ap,
  if◌then◌else◌, none, refl, some, str_eq, ◌++◌, ◌>>=◌, ◌∙◌, ◌∷◌, ◌≡◌,
}
use mcpchecker.Agent.{
  AcpToolCall, AcpToolCallUpdate, SessionUpdate, empty_summary, merge_update, summary_of,
  ToolCallSummary,
}

-- `toolCallMap` and `order`.
pub record Calls : Type 0 where
  pub calls : List (String × ToolCallSummary)
  pub order : List String

abbrev pub no_calls : Calls
no_calls = record { calls = []; order = [] }

-- The first notification of a call counts, a later one does not.
unfoldable pub take_call : Option AcpToolCall → Calls → Calls
unfolding summary_of
take_call none st = st
take_call (some tc) st = elim (lookup tc.tool_call_id st.calls) [
  | some old ↦ st
  | none ↦ record {
    calls = insert tc.tool_call_id (summary_of tc) st.calls;
    order = st.order ++ tc.tool_call_id ∷ [];
  }
]

unfoldable pub take_update : Option AcpToolCallUpdate → Calls → Calls
take_update none st = st
take_update (some u) st = elim (lookup u.tool_call_id st.calls) [
  | some tc ↦ record {
    calls = insert u.tool_call_id (merge_update u tc) st.calls;
    order = st.order;
  }
  | none ↦ record {
    calls = insert u.tool_call_id (merge_update u empty_summary) st.calls;
    order = st.order ++ u.tool_call_id ∷ [];
  }
]

unfoldable pub calls_loop : List SessionUpdate → Calls → Calls
unfolding take_call take_update
calls_loop [] st = st
calls_loop (u ∷ us) st = calls_loop us (take_update u.tool_call_update (take_call u.tool_call st))

-- `*toolCallMap[id]` of each id; a missing one would be a nil pointer.
unfoldable pub collect :
    List String → List (String × ToolCallSummary) → Option (List ToolCallSummary)
collect [] calls = some []
collect (id ∷ ids) calls = do tc ← lookup id calls; rest ← collect ids calls; some (tc ∷ rest)

unfoldable pub extract_tool_calls : List SessionUpdate → Option (List ToolCallSummary)
unfolding calls_loop collect
extract_tool_calls updates = let st = calls_loop updates no_calls in collect st.order st.calls

-- What one call becomes by one update, and by all: the other calls' updates do not matter.
abbrev pub seen_call : String → Option AcpToolCall → Option ToolCallSummary → Option ToolCallSummary
seen_call id none o = o
seen_call id (some tc) (some old) = some old
seen_call id (some tc) none = if str_eq tc.tool_call_id id then some (summary_of tc) else none

abbrev pub seen_update :
    String → Option AcpToolCallUpdate → Option ToolCallSummary → Option ToolCallSummary
seen_update id none o = o
seen_update id (some u) o =
    if str_eq u.tool_call_id id
    then some (merge_update u (elim o [ some tc ↦ tc | none ↦ empty_summary ]))
    else o

abbrev pub call_of : String → List SessionUpdate → Option ToolCallSummary → Option ToolCallSummary
call_of id [] o = o
call_of id (u ∷ us) o =
    call_of id us (seen_update id u.tool_call_update (seen_call id u.tool_call o))

pub at_key :
    {V : Type 0} (k j : String) (m : List (String × V)) {o : Option V}
    → str_eq k j ≡ true
    → lookup k m ≡ o
    → lookup j m ≡ o
at_key k j m q e = ap (λ i. lookup i m) (sym ((eq_iff k j).0 q)) ∙ e

seen_call_other :
    (id : String) (tc : AcpToolCall) (o : Option ToolCallSummary)
    → str_eq tc.tool_call_id id ≡ false
    → seen_call id (some tc) o ≡ o
seen_call_other id tc none q = rw q refl
seen_call_other id tc (some old) q = refl

lookup-take_call :
    (id : String) (o : Option AcpToolCall) (st : Calls)
    → lookup id (take_call o st).calls ≡ seen_call id o (lookup id st.calls)
unfolding take_call
lookup-take_call id none st = refl
lookup-take_call id (some tc) st = elim (Option-cases (lookup tc.tool_call_id st.calls)) [
  | inl e ↦
      rw (take_call, e)
        (rw (lookup-insert_if tc.tool_call_id id (summary_of tc) st.calls)
          (elim (Bool-cases (str_eq tc.tool_call_id id)) [
            | inl q ↦ rw (at_key tc.tool_call_id id st.calls q e) refl
            | inr q ↦ rw (q, seen_call_other id tc (lookup id st.calls) q) refl
          ]))
  | inr (old, e) ↦
      rw (take_call, e)
        (elim (Bool-cases (str_eq tc.tool_call_id id)) [
          | inl q ↦ rw (at_key tc.tool_call_id id st.calls q e) refl
          | inr q ↦ sym (seen_call_other id tc (lookup id st.calls) q)
        ])
]

lookup-take_update :
    (id : String) (o : Option AcpToolCallUpdate) (st : Calls)
    → lookup id (take_update o st).calls ≡ seen_update id o (lookup id st.calls)
unfolding take_update
lookup-take_update id none st = refl
lookup-take_update id (some u) st = elim (Option-cases (lookup u.tool_call_id st.calls)) [
  | inl e ↦
      rw (take_update, e)
        (rw (lookup-insert_if u.tool_call_id id (merge_update u empty_summary) st.calls)
          (elim (Bool-cases (str_eq u.tool_call_id id)) [
            | inl q ↦ rw (q, at_key u.tool_call_id id st.calls q e) refl
            | inr q ↦ rw q refl
          ]))
  | inr (old, e) ↦
      rw (take_update, e)
        (rw (lookup-insert_if u.tool_call_id id (merge_update u old) st.calls)
          (elim (Bool-cases (str_eq u.tool_call_id id)) [
            | inl q ↦ rw (q, at_key u.tool_call_id id st.calls q e) refl
            | inr q ↦ rw q refl
          ]))
]

pub lookup-calls_loop :
    (id : String) (us : List SessionUpdate) (st : Calls)
    → lookup id (calls_loop us st).calls ≡ call_of id us (lookup id st.calls)
unfolding calls_loop
lookup-calls_loop id [] st = refl
lookup-calls_loop id (u ∷ us) st =
    lookup-calls_loop id us (take_update u.tool_call_update (take_call u.tool_call st))
    ∙ ap (call_of id us) (
        lookup-take_update id u.tool_call_update (take_call u.tool_call st)
        ∙ ap (seen_update id u.tool_call_update) (lookup-take_call id u.tool_call st))
