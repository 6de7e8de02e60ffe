-- ===== src/Agent.antt =====
-- pkg/agent/runner.go: what is extracted of the updates that an agent sends during a session. An update
-- is the part of the ACP library's `SessionUpdate` that the program reads; a nil field is `none`.
pub mod Extract
pub mod Merged
pub mod Steps
pub mod Texts
pub mod Kept
pub mod Turns
mod Tests
use mcpchecker.Prelude.{
  str_append, List, Option, String, [], if◌then◌else◌, none, some, str_eq, ◌++◌, ◌∷◌,
}
use mcpchecker.Proxy.{Payload}

pub record ToolCallSummary : Type 0 where
  pub title : String
  pub kind : String
  pub status : String
  pub raw_input : Option Payload
  pub raw_output : Option Payload

-- `OutputStep`, of type `thinking`, `message` or `tool_call`.
pub record OutputStep : Type 0 where
  pub step_type : String
  pub content : String
  pub tool_call : Option ToolCallSummary

-- `SessionUpdateToolCall`
pub record AcpToolCall : Type 0 where
  pub tool_call_id : String
  pub title : String
  pub kind : String
  pub status : String
  pub raw_input : Option Payload
  pub raw_output : Option Payload

-- `SessionToolCallUpdate`
pub record AcpToolCallUpdate : Type 0 where
  pub tool_call_id : String
  pub title : Option String
  pub kind : Option String
  pub status : Option String
  pub raw_input : Option Payload
  pub raw_output : Option Payload

-- A chunk of a message or of a thought: its `Content.Text`, which a chunk of another kind has not.
pub record Chunk : Type 0 where
  pub text : Option String

pub record SessionUpdate : Type 0 where
  pub agent_message_chunk : Option Chunk
  pub agent_thought_chunk : Option Chunk
  pub tool_call : Option AcpToolCall
  pub tool_call_update : Option AcpToolCallUpdate

-- `chunk != nil && chunk.Content.Text != nil`, with the text.
abbrev pub chunk_text : Option Chunk → Option String
chunk_text none = none
chunk_text (some c) = c.text

-- `tc = &ToolCallSummary{}`
abbrev pub empty_summary : ToolCallSummary
empty_summary = record { title = ""; kind = ""; status = ""; raw_input = none; raw_output = none }

unfoldable pub summary_of : AcpToolCall → ToolCallSummary
summary_of tc = record {
  title = tc.title;
  kind = tc.kind;
  status = tc.status;
  raw_input = tc.raw_input;
  raw_output = tc.raw_output;
}

-- `if new != nil { field = *new }`
abbrev pub set_if : {A : Type 0} → Option A → A → A
set_if none old = old
set_if (some new) old = new

-- `if new != nil { field = new }`
abbrev pub keep_if : {A : Type 0} → Option A → Option A → Option A
keep_if none old = old
keep_if (some new) old = some new

unfoldable pub merge_update : AcpToolCallUpdate → ToolCallSummary → ToolCallSummary
merge_update u tc = record {
  title = set_if u.title tc.title;
  kind = set_if u.kind tc.kind;
  status = set_if u.status tc.status;
  raw_input = keep_if u.raw_input tc.raw_input;
  raw_output = keep_if u.raw_output tc.raw_output;
}

-- The builders of `ExtractFinalMessage` and `ExtractThinking`.
unfoldable pub extract_text : (SessionUpdate → Option Chunk) → List SessionUpdate → String
extract_text get [] = ""
extract_text get (u ∷ us) =
    let rest = extract_text get us in
    elim (chunk_text (get u)) [ none ↦ rest | some t ↦ str_append t rest ]

unfoldable pub extract_final_message : List SessionUpdate → String
unfolding extract_text
extract_final_message updates = extract_text (λ u. u.agent_message_chunk) updates

unfoldable pub extract_thinking : List SessionUpdate → String
unfolding extract_text
extract_thinking updates = extract_text (λ u. u.agent_thought_chunk) updates

-- The content of the last step of type `message`; the source walks the steps from their end.
last_message : List OutputStep → Option String
last_message [] = none
last_message (s ∷ steps) = elim (last_message steps) [
  | some c ↦ some c
  | none ↦ if str_eq s.step_type "message" then some s.content else none
]

unfoldable pub final_message_from_steps : List OutputStep → String
unfolding last_message
final_message_from_steps steps = elim (last_message steps) [ some c ↦ c | none ↦ "" ]
