-- ===== src/Proxy/Entries.antt =====
-- What the recorders of pkg/mcpproxy/record.go ought to hold, written from the calls alone.
use mcpchecker.Proxy.{CallHistory, CallRecord, PromptGet, ResourceRead, ToolCall}
use mcpchecker.Prelude.{
  ℕ, All, All-append, List, Option, String, [], ap, append-nil, append_assoc, false, none, refl,
  some, sym, true, ◌++◌, ◌∙◌, ◌∷◌, ◌≡◌, ◌≢◌,
}
use mcpchecker.Proxy.Record.{
  prompt_get, resource_read, tool_call, Operation, Recorder, call_record, get_history, record_all,
  record_prompt_get, record_resource_read, record_tool_call,
}

abbrev entry_call : String → Option String → ℕ → CallRecord
entry_call name none start = record {
  server_name = name;
  timestamp = start;
  success = true;
  error = "";
}
entry_call name (some e) start = record {
  server_name = name;
  timestamp = start;
  success = false;
  error = e;
}

-- The entries of one server, kind by kind, in the order of its calls.
abbrev tool_entries : String → List Operation → List ToolCall
tool_entries name [] = []
tool_entries name (tool_call req res err start ∷ ops) =
    record {
      call = entry_call name err start;
      tool_name = req.name;
      request = some req;
      result = res;
      tokens = none;
    }
    ∷ tool_entries name ops
tool_entries name (resource_read _ _ _ _ ∷ ops) = tool_entries name ops
tool_entries name (prompt_get _ _ _ _ ∷ ops) = tool_entries name ops

abbrev resource_entries : String → List Operation → List ResourceRead
resource_entries name [] = []
resource_entries name (tool_call _ _ _ _ ∷ ops) = resource_entries name ops
resource_entries name (resource_read req res err start ∷ ops) =
    record {
      call = entry_call name err start;
      uri = req.uri;
      request = some req;
      result = res;
      tokens = none;
    }
    ∷ resource_entries name ops
resource_entries name (prompt_get _ _ _ _ ∷ ops) = resource_entries name ops

abbrev prompt_entries : String → List Operation → List PromptGet
prompt_entries name [] = []
prompt_entries name (tool_call _ _ _ _ ∷ ops) = prompt_entries name ops
prompt_entries name (resource_read _ _ _ _ ∷ ops) = prompt_entries name ops
prompt_entries name (prompt_get req res err start ∷ ops) =
    record {
      call = entry_call name err start;
      name = req.name;
      request = some req;
      result = res;
      tokens = none;
    }
    ∷ prompt_entries name ops

call_record-entry :
    (name : String) (err : Option String) (start : ℕ)
    → call_record name err start ≡ entry_call name err start
unfolding call_record
call_record-entry name none start = refl
call_record-entry name (some e) start = refl

-- A recorder adds the entries of its calls to those that it holds.
pub record_all-entries :
    (ops : List Operation) (r : Recorder)
    → let h = get_history (record_all ops r) in
      (h.tool_calls ≡ r.history.tool_calls ++ tool_entries r.server_name ops)
      × (h.resource_reads ≡ r.history.resource_reads ++ resource_entries r.server_name ops)
      × (h.prompt_gets ≡ r.history.prompt_gets ++ prompt_entries r.server_name ops)
unfolding get_history record_tool_call record_resource_read record_prompt_get
record_all-entries [] r = (sym (append-nil _), sym (append-nil _), sym (append-nil _))
record_all-entries (tool_call req res err start ∷ ops) r =
    let (x, y, z) = record_all-entries ops (record_tool_call r req res err start) in
    (
      x
          ∙ append_assoc r.history.tool_calls _ _
          ∙ ap
              (λ c.
                r.history.tool_calls
                ++ record {
                  call = c;
                  tool_name = req.name;
                  request = some req;
                  result = res;
                  tokens = none;
                }
                  ∷ tool_entries r.server_name ops)
              (call_record-entry r.server_name err start),
      y,
      z,
    )
record_all-entries (resource_read req res err start ∷ ops) r =
    let (x, y, z) = record_all-entries ops (record_resource_read r req res err start) in
    (
      x,
      y
          ∙ append_assoc r.history.resource_reads _ _
          ∙ ap
              (λ c.
                r.history.resource_reads
                ++ record {
                  call = c;
                  uri = req.uri;
                  request = some req;
                  result = res;
                  tokens = none;
                }
                  ∷ resource_entries r.server_name ops)
              (call_record-entry r.server_name err start),
      z,
    )
record_all-entries (prompt_get req res err start ∷ ops) r =
    let (x, y, z) = record_all-entries ops (record_prompt_get r req res err start) in
    (
      x,
      y,
      z
          ∙ append_assoc r.history.prompt_gets _ _
          ∙ ap
              (λ c.
                r.history.prompt_gets
                ++ record {
                  call = c;
                  name = req.name;
                  request = some req;
                  result = res;
                  tokens = none;
                }
                  ∷ prompt_entries r.server_name ops)
              (call_record-entry r.server_name err start),
    )

-- All calls of the servers of a run.
abbrev pub all_entries : List (String × List Operation) → CallHistory
all_entries [] = record { tool_calls = []; resource_reads = []; prompt_gets = [] }
all_entries ((name, ops) ∷ runs) = record {
  tool_calls = tool_entries name ops ++ (all_entries runs).tool_calls;
  resource_reads = resource_entries name ops ++ (all_entries runs).resource_reads;
  prompt_gets = prompt_entries name ops ++ (all_entries runs).prompt_gets;
}

-- Each of them has its request.
tool_entries-asked :
    (name : String) (ops : List Operation) → All (λ c. c.request ≢ none) (tool_entries name ops)
tool_entries-asked name [] = tt
tool_entries-asked name (tool_call _ _ _ _ ∷ ops) = (λ e. cc, tool_entries-asked name ops)
tool_entries-asked name (resource_read _ _ _ _ ∷ ops) = tool_entries-asked name ops
tool_entries-asked name (prompt_get _ _ _ _ ∷ ops) = tool_entries-asked name ops

pub all_entries-asked :
    (runs : List (String × List Operation))
    → All (λ c. c.request ≢ none) (all_entries runs).tool_calls
all_entries-asked [] = tt
all_entries-asked ((name, ops) ∷ runs) =
    All-append _ (tool_entries name ops) _ (tool_entries-asked name ops) (all_entries-asked runs)
