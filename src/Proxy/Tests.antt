-- ===== src/Proxy/Tests.antt =====
-- Runs of the recorder and of the combined history, with sorts that leave the calls as they are.
use mcpchecker.Proxy.Entries.{all_entries}
use mcpchecker.Proxy.Recorded.{IsRecorded, record_all_lem}
use mcpchecker.Prelude.{All, List, String, [], map, none, refl, some, ◌∷◌, ◌≡◌}
use mcpchecker.Proxy.{ToolRequest}
use mcpchecker.Proxy.Record.{
  call_record, get_history, new_recorder, record_all, record_prompt_get, record_tool_call,
  Operation, tool_call, prompt_get,
}
use mcpchecker.Proxy.Manager.{
  get_all_call_history, get_all_call_history_recorded, servers_of, Sorting,
}
use mathlib.Core.List.{Permᴰ}
use mathlib.Core.List.Permᴰ

abbrev list_pods : ToolRequest
list_pods = record { name = "pods_list"; arguments = 123 ∷ [] }

abbrev calls : List Operation
calls =
    tool_call list_pods (some (1 ∷ [])) none 5
    ∷ prompt_get (record { name = "debug"; arguments = [] }) none none 6
    ∷ tool_call list_pods none (some "timeout") 7
    ∷ []

abbrev runs : List (String × List Operation)
runs = ("kubernetes", calls) ∷ ("helm", tool_call list_pods none none 1 ∷ []) ∷ []

abbrev unsorted : Sorting
unsorted = record {
  sort_tool_calls = λ cs. cs;
  sort_resource_reads = λ cs. cs;
  sort_prompt_gets = λ cs. cs;
}

history_runs :
    map (λ c. c.error) (get_all_call_history unsorted (servers_of runs)).tool_calls
    ≡ "" ∷ "timeout" ∷ "" ∷ []
unfolding get_all_call_history get_history record_tool_call record_prompt_get new_recorder
    call_record
history_runs = refl

record_all_lem_example :
    let h = get_history (record_all calls (new_recorder "kubernetes")) in
    (map (λ c. c.request) h.tool_calls ≡ map some (list_pods ∷ list_pods ∷ []))
    × (map (λ c. c.request) h.resource_reads ≡ map some [])
    × (map (λ c. c.request) h.prompt_gets
        ≡ map some (record { name = "debug"; arguments = [] } ∷ []))
    × All (IsRecorded "kubernetes") h.tool_calls
record_all_lem_example = record_all_lem "kubernetes" calls

get_all_call_history_recorded_example :
    let h = get_all_call_history unsorted (servers_of runs) in
    Permᴰ (all_entries runs).tool_calls h.tool_calls
    × Permᴰ (all_entries runs).resource_reads h.resource_reads
    × Permᴰ (all_entries runs).prompt_gets h.prompt_gets
get_all_call_history_recorded_example =
    get_all_call_history_recorded unsorted runs (λ cs. Permᴰ.refl cs) (λ cs. Permᴰ.refl cs)
      (λ cs. Permᴰ.refl cs)
