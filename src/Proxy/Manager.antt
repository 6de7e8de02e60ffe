-- ===== src/Proxy/Manager.antt =====
-- `GetAllCallHistory` of pkg/mcpproxy/server_manager.go: the histories of all servers in one, each kind
-- of call sorted by time. The three uses of `sort.Slice` are parameters; a server is its name and its
-- recorder, in the order in which a range walks the map.
use mcpchecker.Proxy.Entries.{all_entries, record_all-entries}
use mathlib.Core.Path.{subst}
use mcpchecker.Prelude.{
  refl, ap, append-nil, append_assoc, sym, ◌∙◌, ◌≡◌, List, String, [], ◌++◌, ◌∷◌,
}
use mathlib.Core.List.{Permᴰ}
use mcpchecker.Proxy.{ToolCall, ResourceRead, PromptGet, CallHistory}
use mcpchecker.Proxy.Record.{get_history, new_recorder, Recorder, Operation, record_all}

pub record Sorting : Type 0 where
  pub sort_tool_calls : List ToolCall → List ToolCall
  pub sort_resource_reads : List ResourceRead → List ResourceRead
  pub sort_prompt_gets : List PromptGet → List PromptGet

-- The loop over the servers, over `combined`.
combine_histories : List (String × Recorder) → CallHistory → CallHistory
combine_histories [] combined = combined
combine_histories ((name, srv) ∷ servers) combined =
    let history = get_history srv in
    combine_histories servers (record {
      tool_calls = combined.tool_calls ++ history.tool_calls;
      resource_reads = combined.resource_reads ++ history.resource_reads;
      prompt_gets = combined.prompt_gets ++ history.prompt_gets;
    })

unfoldable pub get_all_call_history : Sorting → List (String × Recorder) → CallHistory
unfolding combine_histories
get_all_call_history sorting servers =
    let combined =
      combine_histories servers
        (record { tool_calls = []; resource_reads = []; prompt_gets = [] }) in
    record {
      tool_calls = sorting.sort_tool_calls combined.tool_calls;
      resource_reads = sorting.sort_resource_reads combined.resource_reads;
      prompt_gets = sorting.sort_prompt_gets combined.prompt_gets;
    }

-- What package sort documents of a sort: it reorders.
abbrev pub Reorders : {A : Type 0} → (List A → List A) → Type 0
Reorders {A} sort = (cs : List A) → Permᴰ cs (sort cs)

-- The servers of a run: each has a new recorder that some calls went through.
abbrev pub servers_of : List (String × List Operation) → List (String × Recorder)
servers_of [] = []
servers_of ((name, ops) ∷ runs) = (name, record_all ops (new_recorder name)) ∷ servers_of runs

combine_histories-entries :
    (runs : List (String × List Operation)) (before : CallHistory)
    → let h = combine_histories (servers_of runs) before in
      (h.tool_calls ≡ before.tool_calls ++ (all_entries runs).tool_calls)
      × (h.resource_reads ≡ before.resource_reads ++ (all_entries runs).resource_reads)
      × (h.prompt_gets ≡ before.prompt_gets ++ (all_entries runs).prompt_gets)
unfolding combine_histories new_recorder
combine_histories-entries [] before = (sym (append-nil _), sym (append-nil _), sym (append-nil _))
combine_histories-entries ((name, ops) ∷ runs) before =
    let (a, b, c) = record_all-entries ops (new_recorder name) in
    let (x, y, z) = combine_histories-entries runs _ in
    (
      x
          ∙ append_assoc before.tool_calls _ _
          ∙ ap (λ l. before.tool_calls ++ (l ++ (all_entries runs).tool_calls)) a,
      y
          ∙ append_assoc before.resource_reads _ _
          ∙ ap (λ l. before.resource_reads ++ (l ++ (all_entries runs).resource_reads)) b,
      z
          ∙ append_assoc before.prompt_gets _ _
          ∙ ap (λ l. before.prompt_gets ++ (l ++ (all_entries runs).prompt_gets)) c,
    )

-- The calls of a run, each kind sorted.
abbrev pub sorted_entries : Sorting → List (String × List Operation) → CallHistory
sorted_entries sorting runs = record {
  tool_calls = sorting.sort_tool_calls (all_entries runs).tool_calls;
  resource_reads = sorting.sort_resource_reads (all_entries runs).resource_reads;
  prompt_gets = sorting.sort_prompt_gets (all_entries runs).prompt_gets;
}

pub get_all_call_history-sorted :
    (sorting : Sorting) (runs : List (String × List Operation))
    → get_all_call_history sorting (servers_of runs) ≡ sorted_entries sorting runs
unfolding get_all_call_history
get_all_call_history-sorted sorting runs =
    let (x, y, z) =
      combine_histories-entries runs
        (record { tool_calls = []; resource_reads = []; prompt_gets = [] }) in
    rw (get_all_call_history, x, y, z) refl

-- If the three sorts only reorder, then of each kind the combined history holds exactly the calls
-- that went through the servers of the run, each as often as it was made, with its server, its
-- time, its request, its result and its error: none is lost, made up or changed.
pub get_all_call_history_recorded :
    (sorting : Sorting) (runs : List (String × List Operation))
    → Reorders sorting.sort_tool_calls
    → Reorders sorting.sort_resource_reads
    → Reorders sorting.sort_prompt_gets
    → let h = get_all_call_history sorting (servers_of runs) in
      Permᴰ (all_entries runs).tool_calls h.tool_calls
      × Permᴰ (all_entries runs).resource_reads h.resource_reads
      × Permᴰ (all_entries runs).prompt_gets h.prompt_gets
get_all_call_history_recorded sorting runs tools resources prompts =
    let e = sym (get_all_call_history-sorted sorting runs) in
    (
      subst (λ h. Permᴰ (all_entries runs).tool_calls h.tool_calls) e (tools _),
      subst (λ h. Permᴰ (all_entries runs).resource_reads h.resource_reads) e (resources _),
      subst (λ h. Permᴰ (all_entries runs).prompt_gets h.prompt_gets) e (prompts _),
    )
