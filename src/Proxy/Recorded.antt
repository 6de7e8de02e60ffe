-- ===== src/Proxy/Recorded.antt =====
-- What the recorder of pkg/mcpproxy/record.go has written down after any sequence of calls.
use mcpchecker.Prelude.{
  append-nil, append_assoc, All-append, ℕ, Option, inl, inr, none, sym, All, List, String, [], ap,
  false, map, refl, some, ◌++◌, ◌∙◌, ◌∷◌, ◌≡◌, ◌⊎◌,
}
use mcpchecker.Proxy.{Payload, ToolCall, ToolRequest, ResourceRequest, PromptRequest}
use mcpchecker.Proxy.Record.{
  new_recorder, get_history, record_prompt_get, record_resource_read, record_tool_call, Recorder,
  Operation, tool_call, resource_read, prompt_get, record_all, call_record,
}

-- The requests of one kind, in order.
abbrev pub tool_requests : List Operation → List ToolRequest
tool_requests [] = []
tool_requests (tool_call req res err start ∷ ops) = req ∷ tool_requests ops
tool_requests (resource_read _ _ _ _ ∷ ops) = tool_requests ops
tool_requests (prompt_get _ _ _ _ ∷ ops) = tool_requests ops

abbrev pub resource_requests : List Operation → List ResourceRequest
resource_requests [] = []
resource_requests (tool_call _ _ _ _ ∷ ops) = resource_requests ops
resource_requests (resource_read req res err start ∷ ops) = req ∷ resource_requests ops
resource_requests (prompt_get _ _ _ _ ∷ ops) = resource_requests ops

abbrev pub prompt_requests : List Operation → List PromptRequest
prompt_requests [] = []
prompt_requests (tool_call _ _ _ _ ∷ ops) = prompt_requests ops
prompt_requests (resource_read _ _ _ _ ∷ ops) = prompt_requests ops
prompt_requests (prompt_get req res err start ∷ ops) = req ∷ prompt_requests ops

-- A tool call that a recorder of this name wrote: with its request, whose name it repeats, and with an
-- error's text exactly where it failed.
pub record IsRecorded (name : String) (c : ToolCall) : Type 0 where
  pub server : c.server_name ≡ name
  pub asked : (req : ToolRequest) × (c.request ≡ some req) × (c.tool_name ≡ req.name)
  pub failed : c.success ≡ false ⊎ c.error ≡ ""

map-append {ℓ κ} :
    {A : Type ℓ} {B : Type κ} (f : A → B) (xs ys : List A) → map f (xs ++ ys) ≡ map f xs ++ map f ys
map-append f [] ys = refl
map-append f (x ∷ xs) ys = ap (λ l. f x ∷ l) (map-append f xs ys)

-- One more entry at the end, and the rest after it.
snoc {ℓ κ} :
    {A : Type ℓ} {B : Type κ} (f : A → B) (xs : List A) (x : A) (rest : List B)
    → map f (xs ++ x ∷ []) ++ rest ≡ map f xs ++ f x ∷ rest
snoc f xs x rest =
    ap (λ l. l ++ rest) (map-append f xs (x ∷ [])) ∙ append_assoc (map f xs) (f x ∷ []) rest

call_record-IsRecorded :
    (name : String) (req : ToolRequest) (res : Option Payload) (err : Option String) (start : ℕ)
    → IsRecorded name (record {
      call = call_record name err start;
      tool_name = req.name;
      request = some req;
      result = res;
      tokens = none;
    })
unfolding call_record
call_record-IsRecorded name req res none start = record {
  server = refl;
  asked = (req, refl, refl);
  failed = inr refl;
}
call_record-IsRecorded name req res (some e) start = record {
  server = refl;
  asked = (req, refl, refl);
  failed = inl refl;
}

history_after :
    (ops : List Operation) (r : Recorder)
    → All (IsRecorded r.server_name) r.history.tool_calls
    → let h = get_history (record_all ops r) in
      (map (λ c. c.request) h.tool_calls
        ≡ map (λ c. c.request) r.history.tool_calls ++ map some (tool_requests ops))
      × (map (λ c. c.request) h.resource_reads
          ≡ map (λ c. c.request) r.history.resource_reads ++ map some (resource_requests ops))
      × (map (λ c. c.request) h.prompt_gets
          ≡ map (λ c. c.request) r.history.prompt_gets ++ map some (prompt_requests ops))
      × All (IsRecorded r.server_name) h.tool_calls
unfolding get_history record_tool_call record_resource_read record_prompt_get call_record
history_after [] r a = (sym (append-nil _), sym (append-nil _), sym (append-nil _), a)
history_after (tool_call req res err start ∷ ops) r a =
    let (x, y, z, w) = history_after ops (record_tool_call r req res err start) (
      All-append _ r.history.tool_calls _ a
        (call_record-IsRecorded r.server_name req res err start, tt)) in
    (x ∙ snoc (λ c. c.request) r.history.tool_calls _ _, y, z, w)
history_after (resource_read req res err start ∷ ops) r a =
    let (x, y, z, w) = history_after ops (record_resource_read r req res err start) a in
    (x, y ∙ snoc (λ c. c.request) r.history.resource_reads _ _, z, w)
history_after (prompt_get req res err start ∷ ops) r a =
    let (x, y, z, w) = history_after ops (record_prompt_get r req res err start) a in
    (x, y, z ∙ snoc (λ c. c.request) r.history.prompt_gets _ _, w)

-- After any sequence of calls of a new recorder's methods, each history holds one entry for each call of
-- its kind, in order, with the request that was made; every tool call carries the recorder's server and
-- its request's name, and no error text unless it failed.
pub record_all_lem :
    (name : String) (ops : List Operation)
    → let h = get_history (record_all ops (new_recorder name)) in
      (map (λ c. c.request) h.tool_calls ≡ map some (tool_requests ops))
      × (map (λ c. c.request) h.resource_reads ≡ map some (resource_requests ops))
      × (map (λ c. c.request) h.prompt_gets ≡ map some (prompt_requests ops))
      × All (IsRecorded name) h.tool_calls
unfolding new_recorder
record_all_lem name ops = history_after ops (new_recorder name) tt
