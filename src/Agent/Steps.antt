-- ===== src/Agent/Steps.antt =====
-- `ExtractOutputSteps` of pkg/agent/runner.go: the updates as a sequence of thoughts, messages and tool
-- calls. A step of a tool call holds the pointer that `toolCallMap` holds, so that a later update shows
-- in it: here such a step keeps the id, which is looked up in the map at the end.
use mcpchecker.Prelude.Assoc.{insert, lookup}
use mcpchecker.Prelude.{
  List, Option, String, [], if◌then◌else◌, map, none, some, str_append, str_eq, ◌++◌, ◌||◌, ◌∷◌,
}
use mcpchecker.Agent.{
  AcpToolCall, AcpToolCallUpdate, OutputStep, SessionUpdate, chunk_text, empty_summary, keep_if,
  merge_update, summary_of, ToolCallSummary,
}

pub data Pending : Type 0 where
  text_step : (step_type content : String) → Pending
  call_step : (id : String) → Pending

-- `steps`, `currentType`, `buf` and `toolCallMap`. `toolCallOrder` is only written.
pub record Builder : Type 0 where
  pub steps : List Pending
  pub current_type : String
  pub buf : String
  pub calls : List (String × ToolCallSummary)

abbrev pub empty_builder : Builder
empty_builder = record { steps = []; current_type = ""; buf = ""; calls = [] }

-- The end of a run of chunks.
unfoldable pub flush : Builder → Builder
flush b =
    if str_eq b.current_type ""
    then b
    else if str_eq b.current_type "thinking" || str_eq b.current_type "message"
    then if str_eq b.buf "" then record b { current_type = "" } else record b {
      steps = b.steps ++ text_step b.current_type b.buf ∷ [];
      current_type = "";
      buf = "";
    }
    else record b { current_type = "" }

-- `if currentType != t { flush(); currentType = t }; buf.WriteString(s)`
unfoldable pub write : String → Option String → Builder → Builder
unfolding flush
write t none b = b
write t (some s) b =
    let c = if str_eq b.current_type t then b else record (flush b) { current_type = t } in
    record c { buf = str_append c.buf s }

-- `if new != "" { field = new }`
abbrev pub set_nonempty : String → String → String
set_nonempty new old = if str_eq new "" then old else new

-- A notification of a call that is already there.
unfoldable pub merge_call : AcpToolCall → ToolCallSummary → ToolCallSummary
merge_call new tc = record {
  title = set_nonempty new.title tc.title;
  kind = set_nonempty new.kind tc.kind;
  status = set_nonempty new.status tc.status;
  raw_input = keep_if new.raw_input tc.raw_input;
  raw_output = keep_if new.raw_output tc.raw_output;
}

unfoldable pub on_call : Option AcpToolCall → Builder → Builder
unfolding flush summary_of merge_call
on_call none b = b
on_call (some tc) b = elim (lookup tc.tool_call_id (flush b).calls) [
  | none ↦ record (flush b) {
    calls = insert tc.tool_call_id (summary_of tc) (flush b).calls;
    steps = (flush b).steps ++ call_step tc.tool_call_id ∷ [];
  }
  | some old ↦ record (flush b) {
    calls = insert tc.tool_call_id (merge_call tc old) (flush b).calls;
  }
]

unfoldable pub on_update : Option AcpToolCallUpdate → Builder → Builder
unfolding flush merge_update
on_update none b = b
on_update (some u) b = elim (lookup u.tool_call_id b.calls) [
  | none ↦ record (flush b) {
    calls = insert u.tool_call_id (merge_update u empty_summary) (flush b).calls;
    steps = (flush b).steps ++ call_step u.tool_call_id ∷ [];
  }
  | some old ↦ record b { calls = insert u.tool_call_id (merge_update u old) b.calls }
]

unfoldable pub steps_loop : List SessionUpdate → Builder → Builder
unfolding write on_call on_update
steps_loop [] b = b
steps_loop (u ∷ us) b = steps_loop us (
    on_update u.tool_call_update (
      on_call u.tool_call (
        write "message" (chunk_text u.agent_message_chunk)
          (write "thinking" (chunk_text u.agent_thought_chunk) b))))

-- What the reader of the steps sees.
unfoldable pub resolve : List (String × ToolCallSummary) → Pending → OutputStep
resolve calls (text_step t s) = record { step_type = t; content = s; tool_call = none }
resolve calls (call_step id) = record {
  step_type = "tool_call";
  content = "";
  tool_call = lookup id calls;
}

unfoldable pub extract_output_steps : List SessionUpdate → List OutputStep
unfolding steps_loop flush resolve
extract_output_steps updates =
    let b = flush (steps_loop updates empty_builder) in map (resolve b.calls) b.steps
