-- ===== src/Lib.antt =====
-- The core of mcpchecker, which runs agents on tasks in front of recorded MCP servers and checks what
-- they called.
--
-- The program and its model, file by file (paths from the repository's root):
--   * pkg/mcpproxy/record.go writes down each call of a tool, resource or prompt: Proxy has its types,
--     Proxy/Record the recorder, a record that each method maps to the next one. The lock makes
--     concurrent calls a sequence of such steps.
--     Proxy/Recorded proves what it holds, and Proxy/Entries writes it from the calls alone.
--     Proxy/Manager combines the histories of all servers
--     (`GetAllCallHistory` of pkg/mcpproxy/server_manager.go).
--   * pkg/eval/config.go and pkg/eval/assert.go say what a task demands of these calls. Assert has the
--     types; Assert/Match the tests on one call (`matchesToolAssertion` and the like); Assert/Search
--     the evaluators that look for calls and count them; Assert/Order and Assert/Duplicates the
--     evaluators `callOrder` and `noDuplicateCalls` (Assert/Order/Times: what the former says of times);
--     Assert/Skills those of skills; Assert/Result the
--     composite result with its counts and `Merge`; Assert/Composite the evaluator of one set.
--   * pkg/eval/runner.go, `evaluateTaskAssertions`, evaluates the sets of a task and merges them:
--     Assert/Sets; on what the servers recorded: Assert/Recorded.
--   * pkg/agent/runner.go reads what an agent sends: Agent has the updates, Agent/Extract and Agent/Merged
--     the summaries of tool calls, Agent/Steps the output steps, with Agent/Texts and Agent/Kept on
--     their text, and Agent/Turns the turns of the model.
--   * pkg/task/run.go and pkg/steps run the phases of a task: Task has the types, Task/Registry the parsers
--     of steps, Task/Requirements and Task/Separate the aliases, Task/New `NewTaskRunner`, with
--     Task/Created on when it returns, Task/Phases the
--     phases of steps, with Task/Trace for their course, Task/Verdict and
--     Task/Outputs on what they report and hand on, and
--     Task/RunAgent the phase of the agent.
--   * pkg/eval/runner.go chooses and runs tasks: Run has its types, Run/Collect `collectTaskConfigs`, with
--     Run/Selected, Run/Collected and Run/Entries on what it collects; Run/Groups the groups and
--     Run/Workers the goroutines of one; Run/Timeouts the timeouts, with pkg/util/limits.go;
--     Run/Execute, Run/Single and Run/RunTask the run of a task, with Run/Outcome, Run/Stepped, Run/Total
--     and Run/Runs on its result.
--   * pkg/eval/config.go and pkg/util/meta.go read an eval file: Config has its types, which the runner
--     shares, Config/Validate the checks and Config/Read `Read`, over YAML and package path as parameters;
--     Config/Accepts proves which files it reads, over Config/Sources and Config/TaskSets, and
--     Config/Paths how it resolves paths.
--   * pkg/lockfile/lockfile.go reads, writes and checks the lockfile: Lockfile, with Lockfile/Valid on what
--     it asks and on reading back; the regular expressions are written out.
--   * pkg/eval/label_selector.go chooses tasks by label: Label has the task set and the match, Label/Parse
--     the parser over characters, Label/Filter the filter and its copies; Label/Carries, Label/Expand,
--     Label/Requests and Label/Selection prove what they select.
--   * pkg/tokens/tokens.go counts tokens: Tokens has its operations, Tokens/Compute those that
--     ask the tokenizer, a parameter; Tokens/Calls counts the recorded calls
--     (pkg/mcpproxy/tokens.go); Tokens/Add, Tokens/History, Tokens/Turns and
--     Tokens/Aggregate have their laws.
--   * pkg/results/results.go and pkg/cli/diff.go report a run and compare two: Results has the counts and
--     reasons, Results/Diff the comparison; Results/Counts, Results/Reasons and Results/Diff/Names prove
--     what they show, over Results/Diff/Lookup and Results/Diff/Steps.
-- The runner gives each task that a selector leaves to the phases and the agent; the calls that the
-- recorder wrote meanwhile are what the assertions and the token counts read, and what they say goes into
-- the result that the reports count.
--
-- Conventions. A nil pointer is `none`; a slice is a list; a map is an association list, in the order in
-- which a range happens to walk it. An `int64` is the number its
-- 64 bits write, added modulo 2^64. An error is its message. A panic is `none` of the whole result.
-- The loops are structural recursion; only the
-- decimal digits of a number n (Prelude/Text) are on fuel, n + 1, as it has at most as many digits. The functions of Go's library that the
-- assertions call (regexp.MatchString, sort.Slice, json.Marshal) are the fields of `Library`, a
-- parameter; those of package strings and fmt that are simple are written out.
--
-- What lies outside the program, and the parts that are not modelled, is a world: each call of a step,
-- the agent, the proxy, a context or the callback takes a world and gives one back, and nothing is
-- assumed of it but what a theorem names. The goroutines of a group are a step relation, for any order.
--
-- Not modelled: how the runner connects to servers and agents, the steps and extensions, the clients and
-- the command line, which are processes, networks and files; YAML and JSON; tokenizers.
pub mod Prelude
pub mod Proxy
pub mod Agent
pub mod Assert
pub mod Config
pub mod Label
pub mod Lockfile
pub mod Results
pub mod Run
pub mod Task
pub mod Tokens
