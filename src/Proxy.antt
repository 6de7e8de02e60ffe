-- ===== src/Proxy.antt =====
-- pkg/mcpproxy/record.go: what the proxy in front of an MCP server writes down of each call. A time
-- is a number of instants; a payload is the JSON that it is serialised to, a list of bytes.
pub mod Record
pub mod Recorded
pub mod Entries
pub mod Manager
mod Tests
use mcpchecker.Prelude.{ℕ, String, Bool, Option, List}

abbrev pub Payload : Type 0
Payload = List ℕ

-- The token counts of one call, each an `int64`.
pub record TokenCount : Type 0 where
  pub input_tokens : ℕ
  pub output_tokens : ℕ
  pub total_tokens : ℕ

pub record CallRecord : Type 0 where
  pub server_name : String
  pub timestamp : ℕ
  pub success : Bool
  pub error : String

-- The part of the SDK's requests that the program reads: their `Params`.
pub record ToolRequest : Type 0 where
  pub name : String
  pub arguments : Payload

pub record ResourceRequest : Type 0 where
  pub uri : String

pub record PromptRequest : Type 0 where
  pub name : String
  pub arguments : Payload

pub record ToolCall : Type 0 where
  pub call : CallRecord
  pub open call use *
  pub tool_name : String
  pub request : Option ToolRequest
  pub result : Option Payload
  pub tokens : Option TokenCount

pub record ResourceRead : Type 0 where
  pub call : CallRecord
  pub open call use *
  pub uri : String
  pub request : Option ResourceRequest
  pub result : Option Payload
  pub tokens : Option TokenCount

pub record PromptGet : Type 0 where
  pub call : CallRecord
  pub open call use *
  pub name : String
  pub request : Option PromptRequest
  pub result : Option Payload
  pub tokens : Option TokenCount

-- The recorder appends only pointers that it has just made, so the entries are values.
pub record CallHistory : Type 0 where
  pub tool_calls : List ToolCall
  pub resource_reads : List ResourceRead
  pub prompt_gets : List PromptGet
