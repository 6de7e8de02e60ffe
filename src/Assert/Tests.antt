-- ===== src/Assert/Tests.antt =====
-- Runs of the assertions, with a matcher of whole names, a sort by insertion and a serialiser of two
-- payloads in the place of the standard library.
use mcpchecker.Agent.{empty_summary, ToolCallSummary}
use mcpchecker.Assert.Order.Times.{evaluate_call_order_times, Among, IsChronological, Meet}
use mcpchecker.Assert.Recorded.{evaluate_recorded_calls}
use mcpchecker.Proxy.Record.{Operation}
use mcpchecker.Proxy.Manager.{sorted_entries, Sorting, get_all_call_history, servers_of}
use mathlib.Core.List.Permᴰ
use mcpchecker.Assert.Composite.Satisfied.{Satisfied, evaluate_composite_iff}
use mcpchecker.Assert.Result.Laws.{assertion_counts, composite_succeeded-merge}
use mcpchecker.Assert.Result.{
  composite_succeeded, CompositeAssertionResult, failed_assertions, merge, merge_fields, no_results,
  passed_assertions, total_assertions,
}
use mcpchecker.Assert.Sets.{
  AllSatisfied, Outcome, evaluate_task_assertions, evaluate_task_assertions_iff, outcome_succeeded,
}
use mcpchecker.Assert.Composite.{Library, evaluate_composite, new_composite_evaluator}
use mcpchecker.Assert.Duplicates.{
  Distinct, HaveRequests, call_key, evaluate_no_duplicates, evaluate_no_duplicates_iff, keys,
}
use mcpchecker.Assert.Search.{
  evaluate_max_tool_calls, evaluate_min_tool_calls, evaluate_prompts_not_used,
  evaluate_prompts_used, evaluate_require_any, evaluate_resources_not_read, evaluate_resources_read,
  evaluate_tools_not_used, evaluate_tools_used,
}
use mcpchecker.Assert.Skills.{
  quoted, MeetsSkill, collect_skill_inputs, evaluate_skill_assertions, evaluate_skills_iff,
  evaluate_skills_loaded, evaluate_skills_not_loaded, matches_skill_assertion,
}
use mcpchecker.Assert.Order.{
  Verdict, Follows, IndexedCall, all_calls, evaluate_call_order, evaluate_call_order_iff,
  is_expected, pass,
}
use mcpchecker.Assert.{
  succeeded, CallOrderAssertion, SingleAssertionResult, TaskAssertions, ToolAssertion,
}
use mcpchecker.Prelude.{
  arith, ℕ, All, List, String, [], concat, false, if◌then◌else◌, leb, none, refl, show_bytes, some,
  str_eq, true, ◌&&◌, ◌+◌, ◌↔◌, ◌∷◌, ◌≡◌, ◌≤◌,
}
use mathlib.Core.Option.{map as map_option}
use mcpchecker.Prelude.Int.{pos, negsuc}
use mcpchecker.Proxy.{ToolCall, CallHistory}
use mcpchecker.Assert.Match.{
  matches_prompt_assertion, matches_resource_assertion, Regexp, matches_tool_assertion,
}
use mcpchecker.Assert.Search.Verdicts.{evaluate_tool_calls_bounds, Met}

abbrev whole : Regexp
whole p s = if str_eq p "(" then none else some (str_eq p s)

insert_call : IndexedCall → List IndexedCall → List IndexedCall
insert_call c [] = c ∷ []
insert_call c (d ∷ ds) =
    let rest = insert_call c ds in if leb c.timestamp d.timestamp then c ∷ d ∷ ds else d ∷ rest

sort_by_insertion : List IndexedCall → List IndexedCall
unfolding insert_call
sort_by_insertion [] = []
sort_by_insertion (c ∷ cs) = insert_call c (sort_by_insertion cs)

abbrev lib : Library
lib = record {
  match_string = whole;
  sort_calls = sort_by_insertion;
  marshal_json = λ p. elim p [ [] ↦ none | _ ∷ _ ↦ some "{\"skill\":\"deploy\"}" ];
}

abbrev tool_call : ℕ → String → ℕ → ToolCall
tool_call t name argument = record {
  call = record { server_name = "kubernetes"; timestamp = t; success = true; error = "" };
  tool_name = name;
  request = some (record { name = name; arguments = argument ∷ [] });
  result = none;
  tokens = none;
}

abbrev history : CallHistory
history = record {
  tool_calls = tool_call 1 "pods_list" 1 ∷ tool_call 3 "pods_get" 2 ∷ tool_call 4 "pods_get" 7 ∷ [];
  resource_reads =
      record {
        call = record { server_name = "kubernetes"; timestamp = 2; success = true; error = "" };
        uri = "k8s://pods";
        request = none;
        result = none;
        tokens = none;
      }
      ∷ [];
  prompt_gets =
      record {
        call = record { server_name = "kubernetes"; timestamp = 0; success = true; error = "" };
        name = "debug";
        request = none;
        result = none;
        tokens = none;
      }
      ∷ [];
}

history-HaveRequests : HaveRequests history.tool_calls
history-HaveRequests = ((λ e. cc), ((λ e. cc), ((λ e. cc), tt)))

abbrev tool : String → String → ToolAssertion
tool name pattern_text = record { server = "kubernetes"; tool = name; tool_pattern = pattern_text }

abbrev expected_read : CallOrderAssertion
expected_read = record { type = "resource"; server = "kubernetes"; name = "k8s://pods" }

abbrev expected_get : CallOrderAssertion
expected_get = record { type = "tool"; server = "kubernetes"; name = "pods_get" }

abbrev asks : TaskAssertions
asks = record {
  tools_used = tool "pods_list" "" ∷ tool "" "pods_get" ∷ [];
  require_any = tool "pods_delete" "" ∷ tool "" "" ∷ [];
  tools_not_used = tool "" "(" ∷ [];
  min_tool_calls = some (pos 2);
  max_tool_calls = some (pos 3);
  resources_read = record { server = "kubernetes"; uri = ""; uri_pattern = "" } ∷ [];
  resources_not_read = record { server = "helm"; uri = ""; uri_pattern = "" } ∷ [];
  prompts_used = record { server = "kubernetes"; prompt = "debug"; prompt_pattern = "" } ∷ [];
  prompts_not_used = record { server = "helm"; prompt = ""; prompt_pattern = "" } ∷ [];
  call_order = expected_read ∷ expected_get ∷ [];
  no_duplicate_calls = true;
  skills_loaded = record { skill = "deploy"; skill_pattern = "" } ∷ [];
  skills_not_loaded = record { skill = "destroy"; skill_pattern = "" } ∷ [];
}

abbrev agent_calls : List ToolCallSummary
agent_calls =
    record empty_summary { title = "Skill"; raw_input = some (1 ∷ []) }
    ∷ record empty_summary { title = "Bash" }
    ∷ []

abbrev before : Outcome
before = record { assertion_results = none; all_assertions_passed = false }

task_runs :
    map_option
      (λ o. o.all_assertions_passed)
      (evaluate_task_assertions lib "Skill" history agent_calls
        (some asks ∷ none ∷ some asks ∷ [])
        before)
    ≡ some true
unfolding evaluate_task_assertions evaluate_composite new_composite_evaluator evaluate_call_order
    evaluate_no_duplicates evaluate_skill_assertions evaluate_tools_used evaluate_tools_not_used
    evaluate_require_any evaluate_min_tool_calls evaluate_max_tool_calls evaluate_resources_read
    evaluate_resources_not_read evaluate_prompts_used evaluate_prompts_not_used sort_by_insertion
    all_calls is_expected matches_tool_assertion matches_resource_assertion matches_prompt_assertion
    composite_succeeded merge evaluate_skills_loaded evaluate_skills_not_loaded call_key
    matches_skill_assertion concat show_bytes collect_skill_inputs quoted succeeded
task_runs = refl

evaluate_task_assertions_iff_example :
    (r : Outcome) × (evaluate_task_assertions lib "Skill" history agent_calls
        (some asks ∷ none ∷ [])
        before
      ≡ some r)
    × (r.all_assertions_passed ≡ outcome_succeeded r.assertion_results)
    × ((r.all_assertions_passed ≡ true)
        ↔ AllSatisfied lib "Skill" history agent_calls (some asks ∷ none ∷ []))
evaluate_task_assertions_iff_example =
    evaluate_task_assertions_iff lib "Skill" history agent_calls (some asks ∷ none ∷ []) before
      history-HaveRequests refl

evaluate_composite_iff_example :
    (r : CompositeAssertionResult) × (evaluate_composite lib (new_composite_evaluator asks) history
      ≡ some r)
    × ((composite_succeeded r ≡ true) ↔ Satisfied lib asks history)
    × (r.skills_loaded ≡ none)
    × (r.skills_not_loaded ≡ none)
evaluate_composite_iff_example = evaluate_composite_iff lib asks history history-HaveRequests

order_runs :
    evaluate_call_order sort_by_insertion (expected_read ∷ expected_get ∷ []) history ≡ some pass
unfolding evaluate_call_order sort_by_insertion all_calls is_expected
order_runs = refl

distinct_runs : evaluate_no_duplicates history.tool_calls ≡ some pass
unfolding evaluate_no_duplicates call_key concat show_bytes
distinct_runs = refl

evaluate_call_order_iff_example :
    Verdict
      (evaluate_call_order sort_by_insertion (expected_read ∷ expected_get ∷ []) history)
      (Follows (expected_read ∷ expected_get ∷ []) (sort_by_insertion (all_calls history)))
evaluate_call_order_iff_example =
    evaluate_call_order_iff sort_by_insertion expected_read (expected_get ∷ []) history

evaluate_no_duplicates_iff_example :
    Verdict (evaluate_no_duplicates history.tool_calls) (Distinct (keys history.tool_calls))
evaluate_no_duplicates_iff_example =
    evaluate_no_duplicates_iff history.tool_calls history-HaveRequests

evaluate_tool_calls_bounds_example :
    (((evaluate_min_tool_calls (negsuc 0) history).passed ≡ true) ↔ (0 ≤ 3 + 1))
    × (((evaluate_max_tool_calls (pos 2) history).passed ≡ true) ↔ (3 + 0 ≤ 2))
evaluate_tool_calls_bounds_example = evaluate_tool_calls_bounds (negsuc 0) (pos 2) history

abbrev fails : String → SingleAssertionResult
fails why = record { passed = false; reason = why; details = [] }

abbrev mixed : CompositeAssertionResult
mixed = record no_results { tools_used = some pass; call_order = some (fails "late") }

counts_run : (total_assertions mixed ≡ 2) × (passed_assertions mixed ≡ 1)
unfolding total_assertions passed_assertions
counts_run = (refl, refl)

assertion_counts_example :
    (passed_assertions mixed ≤ total_assertions mixed)
    × (passed_assertions mixed + failed_assertions mixed ≡ total_assertions mixed)
    × ((failed_assertions mixed ≡ 0) ↔ (composite_succeeded mixed ≡ true))
assertion_counts_example = assertion_counts mixed

composite_succeeded-merge_example :
    composite_succeeded (merge_fields mixed no_results)
    ≡ composite_succeeded mixed && composite_succeeded no_results
composite_succeeded-merge_example = composite_succeeded-merge mixed no_results

evaluate_skills_iff_example :
    (((evaluate_skills_loaded lib asks.skills_loaded agent_calls "Skill").passed ≡ true)
      ↔ All
          (Met (MeetsSkill whole) (collect_skill_inputs lib agent_calls "Skill"))
          asks.skills_loaded)
    × (((evaluate_skills_not_loaded lib asks.skills_loaded agent_calls "Skill").passed ≡ true)
        ↔ All
            (λ a. ¬ Met (MeetsSkill whole) (collect_skill_inputs lib agent_calls "Skill") a)
            asks.skills_loaded)
evaluate_skills_iff_example = evaluate_skills_iff lib asks.skills_loaded agent_calls "Skill"

-- Two servers, of which one recorded two calls.
abbrev runs : List (String × List Operation)
runs =
    (
      "kubernetes",
      Operation.tool_call (record { name = "pods_list"; arguments = [] }) none none 1
          ∷ Operation.tool_call (record { name = "pods_get"; arguments = [] }) none (some "gone") 2
          ∷ [],
    )
    ∷ ("helm", [])
    ∷ []

abbrev unsorted : Sorting
unsorted = record {
  sort_tool_calls = λ cs. cs;
  sort_resource_reads = λ cs. cs;
  sort_prompt_gets = λ cs. cs;
}

evaluate_recorded_calls_example :
    let made = sorted_entries unsorted runs in
    let h = get_all_call_history unsorted (servers_of runs) in
    (r : Outcome) × (evaluate_task_assertions lib "Skill" h agent_calls (some asks ∷ []) before
      ≡ some r)
    × (r.all_assertions_passed ≡ outcome_succeeded r.assertion_results)
    × ((r.all_assertions_passed ≡ true)
        ↔ AllSatisfied lib "Skill" made agent_calls (some asks ∷ []))
evaluate_recorded_calls_example =
    evaluate_recorded_calls lib "Skill" agent_calls (some asks ∷ []) before unsorted runs
      (λ cs. Permᴰ.refl cs) refl

-- Two calls, in order.
abbrev two_calls : CallHistory
two_calls = record {
  tool_calls = tool_call 1 "pods_list" 1 ∷ tool_call 3 "pods_get" 2 ∷ [];
  resource_reads = [];
  prompt_gets = [];
}

evaluates_two : evaluate_call_order (λ cs. cs) (expected_get ∷ []) two_calls ≡ some pass
unfolding evaluate_call_order all_calls is_expected
evaluates_two = refl

two_calls-IsChronological : IsChronological (all_calls two_calls)
unfolding all_calls
two_calls-IsChronological = ((omega arith, tt), (tt, tt))

evaluate_call_order_times_example :
    (ms : List IndexedCall) × Meet (expected_get ∷ []) ms
    × IsChronological ms
    × All (Among (all_calls two_calls)) ms
evaluate_call_order_times_example =
    evaluate_call_order_times (λ cs. cs) expected_get [] two_calls pass
      (Permᴰ.refl (all_calls two_calls)) two_calls-IsChronological evaluates_two refl
