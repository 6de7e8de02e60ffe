-- ===== src/Assert/Order.antt =====
-- `callOrderEvaluator.Evaluate` of pkg/eval/assert.go: all calls on one time line, walked once with
-- the position of the next expected call. `sort.Slice` is a parameter: it is not stable, so the order
-- of calls with one timestamp is not known.
pub mod Times
use mcpchecker.Prelude.{
  ℕ, ◌+◌, String, str_eq, Bool, true, false, ◌&&◌, Option, none, some, List, [], ◌∷◌, ◌++◌, map,
  ◌≡◌, ◌↔◌, refl, if◌then◌else◌, length, show_ℕ, concat, Bool-cases, inl, inr,
}
use mcpchecker.Proxy.{ToolCall, ResourceRead, PromptGet, CallHistory}
use mcpchecker.Assert.{CallOrderAssertion, SingleAssertionResult}

pub record IndexedCall : Type 0 where
  pub timestamp : ℕ
  pub call_type : String
  pub server : String
  pub name : String

abbrev pub of_tool : ToolCall → IndexedCall
of_tool tc = record {
  timestamp = tc.timestamp;
  call_type = "tool";
  server = tc.server_name;
  name = tc.tool_name;
}

abbrev pub of_resource : ResourceRead → IndexedCall
of_resource rr = record {
  timestamp = rr.timestamp;
  call_type = "resource";
  server = rr.server_name;
  name = rr.uri;
}

abbrev pub of_prompt : PromptGet → IndexedCall
of_prompt pg = record {
  timestamp = pg.timestamp;
  call_type = "prompt";
  server = pg.server_name;
  name = pg.name;
}

-- The calls in the order in which the three loops append them.
unfoldable pub all_calls : CallHistory → List IndexedCall
all_calls h =
    map of_tool h.tool_calls ++ (map of_resource h.resource_reads ++ map of_prompt h.prompt_gets)

unfoldable pub is_expected : IndexedCall → CallOrderAssertion → Bool
is_expected call expected =
    str_eq call.call_type expected.type
    && str_eq call.server expected.server
    && str_eq call.name expected.name

abbrev pub pass : SingleAssertionResult
pass = record { passed = true; reason = ""; details = [] }

not_satisfied : ℕ → ℕ → SingleAssertionResult
not_satisfied got wanted = record {
  passed = false;
  reason =
      concat ("Expected call order not satisfied. Got to " ∷ show_ℕ got ∷ "/" ∷ show_ℕ wanted ∷ []);
  details = [];
}

-- The loop. `expected` is `e.callOrder[assertionIdx:]`; where it is empty the index is out of range.
walk : ℕ → ℕ → List IndexedCall → List CallOrderAssertion → Option SingleAssertionResult
unfolding not_satisfied
walk total idx [] expected = some (not_satisfied idx total)
walk total idx (call ∷ calls) [] = none
walk total idx (call ∷ calls) (e ∷ []) =
    if is_expected call e then some pass else walk total idx calls (e ∷ [])
walk total idx (call ∷ calls) (e ∷ e' ∷ expected) = elim (is_expected call e) [
  | true ↦ walk total (idx + 1) calls (e' ∷ expected)
  | false ↦ walk total idx calls (e ∷ e' ∷ expected)
]

unfoldable pub evaluate_call_order :
    (List IndexedCall → List IndexedCall)
    → List CallOrderAssertion
    → CallHistory
    → Option SingleAssertionResult
unfolding walk
evaluate_call_order sort expected history =
    walk (length expected) 0 (sort (all_calls history)) expected

-- The expected calls appear among the calls in this order, with any others between them.
pub data Follows : List CallOrderAssertion → List IndexedCall → Type 0 where
  done : {cs : List IndexedCall} → Follows [] cs
  skip :
      {es : List CallOrderAssertion} {c : IndexedCall} {cs : List IndexedCall}
      → Follows es cs
      → Follows es (c ∷ cs)
  meet :
      {e : CallOrderAssertion} {es : List CallOrderAssertion} {c : IndexedCall}
      {cs : List IndexedCall}
      → is_expected c e ≡ true
      → Follows es cs
      → Follows (e ∷ es) (c ∷ cs)

-- An earlier call for the head leaves at least as much to follow.
drop_head :
    {e : CallOrderAssertion} {es : List CallOrderAssertion} {cs : List IndexedCall}
    → Follows (e ∷ es) cs
    → Follows es cs
drop_head (skip f) = skip (drop_head f)
drop_head (meet h f) = skip f

-- Whether the head is met by the first call or later, the rest follows after the first call.
after_first :
    {e : CallOrderAssertion} {es : List CallOrderAssertion} {c : IndexedCall}
    {cs : List IndexedCall}
    → Follows (e ∷ es) (c ∷ cs)
    → Follows es cs
after_first (skip f) = drop_head f
after_first (meet h f) = f

not_now :
    {e : CallOrderAssertion} {es : List CallOrderAssertion} {c : IndexedCall}
    {cs : List IndexedCall}
    → is_expected c e ≡ false
    → Follows (e ∷ es) (c ∷ cs)
    → Follows (e ∷ es) cs
not_now n (skip f) = f
not_now n (meet h f) = cc

-- A verdict that was reached, and is `passed` exactly when `P`.
abbrev pub Verdict : Option SingleAssertionResult → Type 0 → Type 0
Verdict none P = ⊥
Verdict (some r) P = (r.passed ≡ true) ↔ P

-- Two statements of one verdict.
pub Verdict-iff :
    {P Q : Type 0} (o : Option SingleAssertionResult) → P ↔ Q → Verdict o P → Verdict o Q
Verdict-iff none e v = v
Verdict-iff (some r) e v = (λ h. e.0 (v.0 h), λ q. v.1 (e.1 q))

walk-Verdict :
    (total idx : ℕ) (cs : List IndexedCall) (e : CallOrderAssertion) (es : List CallOrderAssertion)
    → Verdict (walk total idx cs (e ∷ es)) (Follows (e ∷ es) cs)
unfolding walk
walk-Verdict total idx [] e es = (λ h. cc, λ f. elim f [ ])
walk-Verdict total idx (c ∷ cs) e [] = elim (Bool-cases (is_expected c e)) [
  | inl h ↦ rw h (λ _. meet h done, λ _. refl)
  | inr h ↦ rw h (Verdict-iff _ (skip, not_now h) (walk-Verdict total idx cs e []))
]
walk-Verdict total idx (c ∷ cs) e (e' ∷ es) = elim (Bool-cases (is_expected c e)) [
  | inl h ↦
      rw (h, walk) (Verdict-iff _ (meet h, after_first) (walk-Verdict total (idx + 1) cs e' es))
  | inr h ↦ rw (h, walk) (Verdict-iff _ (skip, not_now h) (walk-Verdict total idx cs e (e' ∷ es)))
]

-- If at least one call is expected, the evaluator reaches a verdict without going out of range, and
-- passes exactly when the expected calls appear in order in the time line.
pub evaluate_call_order_iff :
    (sort : List IndexedCall → List IndexedCall)
    → (e : CallOrderAssertion) (es : List CallOrderAssertion) (h : CallHistory)
    → Verdict (evaluate_call_order sort (e ∷ es) h) (Follows (e ∷ es) (sort (all_calls h)))
unfolding evaluate_call_order
evaluate_call_order_iff sort e es h = walk-Verdict _ 0 (sort (all_calls h)) e es
