-- ===== src/Agent/Tests.antt =====
-- Sessions of an agent: a thought, two calls in parallel, a late result and an answer in two chunks.
use mcpchecker.Tokens.Compute.{Tokenizer}
use mcpchecker.Agent.Texts.{texts}
use mcpchecker.Agent.Steps.{extract_output_steps}
use mcpchecker.Agent.Kept.{extract_output_steps_keeps_text}
use mcpchecker.Agent.Merged.{add_ids, extract_tool_calls_merges, or_empty}
use mcpchecker.Agent.Extract.{call_of, extract_tool_calls}
use mcpchecker.Agent.Turns.{announced, counted, extract_turns, extract_turns_counts}
use mcpchecker.Prelude.{
  List, Option, String, [], if◌then◌else◌, map, none, refl, some, str_eq, ◌∷◌, ◌≡◌,
}
use mcpchecker.Prelude.Assoc.{insert, lookup}
use mcpchecker.Prelude.Int.{pos}
use mcpchecker.Agent.{
  merge_update, ToolCallSummary, extract_final_message, extract_thinking, final_message_from_steps,
  SessionUpdate,
}

abbrev quiet : SessionUpdate
quiet = record {
  agent_message_chunk = none;
  agent_thought_chunk = none;
  tool_call = none;
  tool_call_update = none;
}

abbrev says : String → SessionUpdate
says s = record quiet { agent_message_chunk = some (record { text = some s }) }

abbrev thinks : String → SessionUpdate
thinks s = record quiet { agent_thought_chunk = some (record { text = some s }) }

abbrev calls_tool : String → String → SessionUpdate
calls_tool id title = record quiet {
  tool_call = some (record {
    tool_call_id = id;
    title = title;
    kind = "";
    status = "pending";
    raw_input = none;
    raw_output = none;
  });
}

abbrev returns : String → SessionUpdate
returns id = record quiet {
  tool_call_update = some (record {
    tool_call_id = id;
    title = none;
    kind = none;
    status = some "completed";
    raw_input = none;
    raw_output = some (1 ∷ []);
  });
}

abbrev session : List SessionUpdate
session =
    thinks "list first"
    ∷ calls_tool "a" "pods_list"
    ∷ calls_tool "b" "pods_get"
    ∷ returns "a"
    ∷ returns "b"
    ∷ says "All "
    ∷ says "run."
    ∷ []

abbrev letters : Tokenizer
letters = record {
  count_tokens = λ s. if str_eq s "" then some 0 else some 1;
  count_json_tokens = λ p. none;
}

titles : Option (List ToolCallSummary) → List String
titles none = []
titles (some tcs) = map (λ tc. tc.title) tcs

session_calls : titles (extract_tool_calls session) ≡ "pods_list" ∷ "pods_get" ∷ []
unfolding titles extract_tool_calls lookup insert merge_update
session_calls = refl

session_answer : final_message_from_steps (extract_output_steps session) ≡ "All run."
unfolding final_message_from_steps extract_output_steps lookup insert
session_answer = refl

session_turns : map (λ t. t.num_tool_calls) (extract_turns letters session) ≡ pos 2 ∷ pos 0 ∷ []
unfolding extract_turns
session_turns = refl

-- A notification that comes after an update of the same call: the steps show its title, the summaries
-- do not.
late_session : List SessionUpdate
late_session = returns "a" ∷ calls_tool "a" "pods_list" ∷ []

late_title_lost : titles (extract_tool_calls late_session) ≡ "" ∷ []
unfolding titles extract_tool_calls lookup insert merge_update late_session
late_title_lost = refl

late_title_kept :
    map
      (λ s. titles (elim s.tool_call as (λ _. Option (List ToolCallSummary)) [
        | some tc ↦ some (tc ∷ [])
        | none ↦ none
      ]))
      (extract_output_steps late_session)
    ≡ ("pods_list" ∷ []) ∷ []
unfolding titles extract_output_steps lookup insert late_session
late_title_kept = refl

extract_tool_calls_merges_example :
    extract_tool_calls session
    ≡ some (map (λ id. or_empty (call_of id session none)) (add_ids session []))
extract_tool_calls_merges_example = extract_tool_calls_merges session

extract_output_steps_keeps_text_example :
    (texts "message" (extract_output_steps session) ≡ extract_final_message session)
    × (texts "thinking" (extract_output_steps session) ≡ extract_thinking session)
extract_output_steps_keeps_text_example = extract_output_steps_keeps_text session

extract_turns_counts_example : counted (extract_turns letters session) ≡ announced session
extract_turns_counts_example = extract_turns_counts letters session
