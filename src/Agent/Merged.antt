-- ===== src/Agent/Merged.antt =====
-- That `ExtractToolCalls` of pkg/agent/runner.go never meets a missing id, and merges each call's
-- updates in the order of their ids.
use mathlib.Core.Path.{subst}
use mcpchecker.Prelude.Assoc.{insert, lookup, lookup-insert_if, lookup-insert_same}
use mcpchecker.Agent.Extract.{
  call_of, calls_loop, collect, extract_tool_calls, lookup-calls_loop, no_calls, Calls, take_call,
  take_update,
}
use mcpchecker.Label.{contains_value}
use mcpchecker.Prelude.{
  All-append, map, All, Bool, Bool-cases, List, Option, Option-cases, String, [], ap, arith, eq_iff,
  false, if◌then◌else◌, inl, inr, none, refl, some, str_eq, sym, true, ◌++◌, ◌∙◌, ◌∷◌, ◌≡◌,
}
use mcpchecker.Agent.{
  empty_summary, merge_update, summary_of, AcpToolCall, AcpToolCallUpdate, SessionUpdate,
  ToolCallSummary,
}

-- The ids in the order in which they come first.
abbrev pub add_id : String → List String → List String
add_id id ids = if contains_value ids id then ids else ids ++ id ∷ []

abbrev pub call_id : Option AcpToolCall → Option String
call_id none = none
call_id (some tc) = some tc.tool_call_id

abbrev pub update_id : Option AcpToolCallUpdate → Option String
update_id none = none
update_id (some u) = some u.tool_call_id

abbrev pub add_if : Option String → List String → List String
add_if none ids = ids
add_if (some id) ids = add_id id ids

abbrev pub add_ids : List SessionUpdate → List String → List String
add_ids [] ids = ids
add_ids (u ∷ us) ids =
    add_ids us (add_if (update_id u.tool_call_update) (add_if (call_id u.tool_call) ids))

abbrev is_some : {A : Type 0} → Option A → Bool
is_some none = false
is_some (some a) = true

-- `order` holds the keys of the map.
record Tracks (st : Calls) : Type 0 where
  keys : (id : String) → contains_value st.order id ≡ is_some (lookup id st.calls)
  held : All (λ id. is_some (lookup id st.calls) ≡ true) st.order

contains_value-snoc :
    (xs : List String) (x id : String)
    → contains_value (xs ++ x ∷ []) id ≡ (if str_eq x id then true else contains_value xs id)
unfolding contains_value
contains_value-snoc [] x id = refl
contains_value-snoc (y ∷ xs) x id = rw (contains_value-snoc xs x id) (ground arith)

-- A key put into the map, and added to `order` if it is new.
put : (id : String) (tc : ToolCallSummary) (st : Calls) → Calls
put id tc st = record { calls = insert id tc st.calls; order = add_id id st.order }

held-insert :
    (id j : String) (tc : ToolCallSummary) (m : List (String × ToolCallSummary))
    → is_some (lookup j m) ≡ true
    → is_some (lookup j (insert id tc m)) ≡ true
held-insert id j tc m h =
    rw (lookup-insert_if id j tc m)
      (elim (Bool-cases (str_eq id j)) [ inl q ↦ rw q refl | inr q ↦ rw q h ])

held-add_id :
    (id : String) (tc : ToolCallSummary) (m : List (String × ToolCallSummary)) (ids : List String)
    → All (λ j. is_some (lookup j m) ≡ true) ids
    → All (λ j. is_some (lookup j (insert id tc m)) ≡ true) ids
held-add_id id tc m [] h = tt
held-add_id id tc m (j ∷ ids) h = (held-insert id j tc m h.0, held-add_id id tc m ids h.1)

put-Tracks : (id : String) (tc : ToolCallSummary) (st : Calls) → Tracks st → Tracks (put id tc st)
unfolding put
put-Tracks id tc st t = record {
  keys = λ j.
      rw (lookup-insert_if id j tc st.calls) (elim (Bool-cases (contains_value st.order id)) [
        | inl p ↦ rw p (elim (Bool-cases (str_eq id j)) [
          | inl q ↦ rw q (ap (contains_value st.order) (sym ((eq_iff id j).0 q)) ∙ p)
          | inr q ↦ rw q (t.keys j)
        ])
        | inr p ↦ rw p (
            rw (contains_value-snoc st.order id j)
              (elim (Bool-cases (str_eq id j)) [ inl q ↦ rw q refl | inr q ↦ rw q (t.keys j) ]))
      ]);
  held = elim (Bool-cases (contains_value st.order id)) [
    | inl p ↦ rw p (held-add_id id tc st.calls st.order t.held)
    | inr p ↦ rw p (
        All-append (λ j. is_some (lookup j (insert id tc st.calls)) ≡ true) st.order (id ∷ [])
          (held-add_id id tc st.calls st.order t.held)
          (rw (lookup-insert_same id tc st.calls) refl, tt))
  ];
}

module _ (id : String) (tc : ToolCallSummary) (st : Calls) (t : Tracks st) where
  put_new :
      lookup id st.calls ≡ none
      → record { calls = insert id tc st.calls; order = st.order ++ id ∷ [] } ≡ put id tc st
  unfolding put
  put_new e = ap (λ o. record { calls = insert id tc st.calls; order = o }) (rw (t.keys id, e) refl)

  put_old :
      {old : ToolCallSummary}
      → lookup id st.calls ≡ some old
      → record { calls = insert id tc st.calls; order = st.order } ≡ put id tc st
  unfolding put
  put_old e = ap (λ o. record { calls = insert id tc st.calls; order = o }) (rw (t.keys id, e) refl)

-- What a step keeps: the ids it adds, and the invariant.
abbrev Keeps : Option String → Calls → Calls → Type 0
Keeps o st next = (next.order ≡ add_if o st.order) × Tracks next

put-Keeps :
    (id : String) (tc : ToolCallSummary) (st next : Calls)
    → Tracks st
    → next ≡ put id tc st
    → Keeps (some id) st next
unfolding put
put-Keeps id tc st next t e = (ap (λ s. s.order) e, subst Tracks (sym e) (put-Tracks id tc st t))

take_call-Keeps :
    (o : Option AcpToolCall) (st : Calls) → Tracks st → Keeps (call_id o) st (take_call o st)
unfolding take_call
take_call-Keeps none st t = (refl, t)
take_call-Keeps (some tc) st t = elim (Option-cases (lookup tc.tool_call_id st.calls)) [
  | inl e ↦
      put-Keeps tc.tool_call_id (summary_of tc) st (take_call (some tc) st) t
        (rw (take_call, e) (put_new tc.tool_call_id (summary_of tc) st t e))
  | inr (old, e) ↦ rw (take_call, e) (rw (t.keys tc.tool_call_id, e) refl, t)
]

take_update-Keeps :
    (o : Option AcpToolCallUpdate) (st : Calls)
    → Tracks st
    → Keeps (update_id o) st (take_update o st)
unfolding take_update
take_update-Keeps none st t = (refl, t)
take_update-Keeps (some u) st t = elim (Option-cases (lookup u.tool_call_id st.calls)) [
  | inl e ↦
      put-Keeps u.tool_call_id (merge_update u empty_summary) st (take_update (some u) st) t
        (rw (take_update, e) (put_new u.tool_call_id (merge_update u empty_summary) st t e))
  | inr (old, e) ↦
      put-Keeps u.tool_call_id (merge_update u old) st (take_update (some u) st) t
        (rw (take_update, e) (put_old u.tool_call_id (merge_update u old) st t e))
]

calls_loop-Keeps :
    (us : List SessionUpdate) (st : Calls)
    → Tracks st
    → ((calls_loop us st).order ≡ add_ids us st.order) × Tracks (calls_loop us st)
unfolding calls_loop
calls_loop-Keeps [] st t = (refl, t)
calls_loop-Keeps (u ∷ us) st t =
    let (p, first) = take_call-Keeps u.tool_call st t in
    let (q, second) = take_update-Keeps u.tool_call_update (take_call u.tool_call st) first in
    let (r, last) =
      calls_loop-Keeps us (take_update u.tool_call_update (take_call u.tool_call st)) second in
    (r ∙ ap (add_ids us) (q ∙ ap (add_if (update_id u.tool_call_update)) p), last)

-- What the map holds of an id.
abbrev pub or_empty : Option ToolCallSummary → ToolCallSummary
or_empty none = empty_summary
or_empty (some tc) = tc

collect-All :
    (ids : List String) (m : List (String × ToolCallSummary))
    → All (λ id. is_some (lookup id m) ≡ true) ids
    → collect ids m ≡ some (map (λ id. or_empty (lookup id m)) ids)
unfolding collect
collect-All [] m h = refl
collect-All (id ∷ ids) m h = elim (Option-cases (lookup id m)) [
  | inl e ↦ absurd (cc (h.0, e))
  | inr (tc, e) ↦ rw (collect, e) (rw (collect-All ids m h.1) refl)
]

map-ext : {A B : Type 0} (f g : A → B) (xs : List A) → ((x : A) → f x ≡ g x) → map f xs ≡ map g xs
map-ext f g [] h = refl
map-ext f g (x ∷ xs) h = rw (h x, map-ext f g xs h) refl

-- For every sequence of updates `ExtractToolCalls` returns, with one summary for each id, in the order in
-- which the ids come first, and the summary of an id is what that call's own updates make of it, in
-- their order: no update of another call changes it.
pub extract_tool_calls_merges :
    (us : List SessionUpdate)
    → extract_tool_calls us ≡ some (map (λ id. or_empty (call_of id us none)) (add_ids us []))
unfolding extract_tool_calls lookup contains_value
extract_tool_calls_merges us =
    let (e, t) = calls_loop-Keeps us no_calls (record { keys = λ id. refl; held = tt }) in
    collect-All (calls_loop us no_calls).order (calls_loop us no_calls).calls t.held
    ∙ ap (λ xs. some (map (λ id. or_empty (lookup id (calls_loop us no_calls).calls)) xs)) e
    ∙ ap (λ xs. some xs)
        (map-ext _ _ (add_ids us []) (λ id. ap or_empty (lookup-calls_loop id us no_calls)))
