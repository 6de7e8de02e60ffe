-- ===== src/Proxy/Record.antt =====
-- The recorder of pkg/mcpproxy/record.go. Each method holds the recorder's lock throughout, so
-- concurrent calls are a sequence of these operations. A request that reaches a handler is not nil.
use mcpchecker.Prelude.{List, ℕ, String, Bool, true, false, Option, none, some, [], ◌∷◌, ◌++◌}
use mcpchecker.Proxy.{Payload, CallRecord, ToolRequest, ResourceRequest, PromptRequest, CallHistory}

pub record Recorder : Type 0 where
  pub server_name : String
  pub history : CallHistory

unfoldable pub new_recorder : String → Recorder
new_recorder name = record {
  server_name = name;
  history = record { tool_calls = []; resource_reads = []; prompt_gets = [] };
}

-- An `error` is the text that its `Error` method returns, and nil is `none`.
error_to_string : Option String → String
error_to_string none = ""
error_to_string (some e) = e

is_nil : Option String → Bool
is_nil none = true
is_nil (some e) = false

unfoldable pub call_record : String → Option String → ℕ → CallRecord
unfolding error_to_string is_nil
call_record server err start = record {
  server_name = server;
  timestamp = start;
  success = is_nil err;
  error = error_to_string err;
}

unfoldable pub record_tool_call :
    Recorder → ToolRequest → Option Payload → Option String → ℕ → Recorder
unfolding call_record
record_tool_call r req res err start = record r {
  history = record r.history {
    tool_calls =
        r.history.tool_calls
        ++ record {
          call = call_record r.server_name err start;
          tool_name = req.name;
          request = some req;
          result = res;
          tokens = none;
        }
          ∷ [];
  };
}

unfoldable pub record_resource_read :
    Recorder → ResourceRequest → Option Payload → Option String → ℕ → Recorder
unfolding call_record
record_resource_read r req res err start = record r {
  history = record r.history {
    resource_reads =
        r.history.resource_reads
        ++ record {
          call = call_record r.server_name err start;
          uri = req.uri;
          request = some req;
          result = res;
          tokens = none;
        }
          ∷ [];
  };
}

unfoldable pub record_prompt_get :
    Recorder → PromptRequest → Option Payload → Option String → ℕ → Recorder
unfolding call_record
record_prompt_get r req res err start = record r {
  history = record r.history {
    prompt_gets =
        r.history.prompt_gets
        ++ record {
          call = call_record r.server_name err start;
          name = req.name;
          request = some req;
          result = res;
          tokens = none;
        }
          ∷ [];
  };
}

unfoldable pub get_history : Recorder → CallHistory
get_history r = r.history

-- The calls of a recorder's methods, in the order in which they get its lock.
pub data Operation : Type 0 where
  tool_call : ToolRequest → Option Payload → Option String → ℕ → Operation
  resource_read : ResourceRequest → Option Payload → Option String → ℕ → Operation
  prompt_get : PromptRequest → Option Payload → Option String → ℕ → Operation

abbrev pub record_operation : Operation → Recorder → Recorder
record_operation (tool_call req res err start) r = record_tool_call r req res err start
record_operation (resource_read req res err start) r = record_resource_read r req res err start
record_operation (prompt_get req res err start) r = record_prompt_get r req res err start

abbrev pub record_all : List Operation → Recorder → Recorder
record_all [] r = r
record_all (op ∷ ops) r = record_all ops (record_operation op r)
