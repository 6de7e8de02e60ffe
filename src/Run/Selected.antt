-- ===== src/Run/Selected.antt =====
-- What `collectTaskConfigs` of pkg/eval/runner.go collects, by canonical path: its indices and its list
-- against one list of entries that have keys.
use mcpchecker.Assert.{TaskAssertions}
use mcpchecker.Prelude.Assoc.{lookup-insert_if, insert, lookup}
use mcpchecker.Task.{TaskConfig}
use mcpchecker.Run.Collect.{select_task, Collected, append_assertions, given}
use mcpchecker.Prelude.{
  eq_iff, append-nil, ◌>>=◌, ℕ, Bool-cases, List, Option, Option-cases, String, [], ap, if_false,
  if_true, if◌then◌else◌, inl, inr, length, none, refl, some, str_eq, suc, sym, ◌++◌, ◌∙◌, ◌∷◌, ◌≡◌,
}
use mcpchecker.Run.{EvalTask}

-- A task that a set selects.
pub record Visit : Type 0 where
  pub canonical : String
  pub display : String
  pub spec : TaskConfig
  pub assertions : Option TaskAssertions

abbrev pub Entries : Type 0
Entries = List (String × EvalTask)

abbrev pub new_entry : Visit → String × EvalTask
new_entry v =
    (v.canonical, record { path = v.display; spec = v.spec; assertions = given v.assertions })

abbrev pub with_more : Visit → EvalTask → EvalTask
with_more v tc = record tc { assertions = tc.assertions ++ given v.assertions }

-- A visit goes to the entry of its path, or makes one at the end.
abbrev pub place : Visit → Entries → Entries
place v [] = new_entry v ∷ []
place v ((k, tc) ∷ m) =
    let rest = place v m in if str_eq k v.canonical then (k, with_more v tc) ∷ m else (k, tc) ∷ rest

abbrev pub tasks_of : Entries → List EvalTask
tasks_of [] = []
tasks_of ((k, tc) ∷ m) = tc ∷ tasks_of m

abbrev next_index : Option ℕ → Option ℕ
next_index none = none
next_index (some i) = some (suc i)

abbrev index_of : String → Entries → Option ℕ
index_of k [] = none
index_of k ((j, tc) ∷ m) = let rest = index_of k m in if str_eq j k then some 0 else next_index rest

-- The model's state against the entries.
pub record Shows (c : Collected) (m : Entries) : Type 0 where
  pub tasks : c.task_configs ≡ tasks_of m
  pub indices : (k : String) → lookup k c.seen ≡ index_of k m

next_index-none : (o : Option ℕ) → next_index o ≡ none → o ≡ none
next_index-none none e = refl
next_index-none (some i) e = absurd (cc e)

-- A new path.
place-new :
    (v : Visit) (m : Entries) → index_of v.canonical m ≡ none → place v m ≡ m ++ new_entry v ∷ []
place-new v [] e = refl
place-new v ((k, tc) ∷ m) e = elim (Bool-cases (str_eq k v.canonical)) [
  | inl q ↦ absurd (cc (sym (if_true _ q) ∙ e))
  | inr q ↦
      if_false _ q
      ∙ ap (λ l. (k, tc) ∷ l) (place-new v m (next_index-none _ (sym (if_false (some 0) q) ∙ e)))
]

tasks_of-snoc :
    (m : Entries) (k : String) (tc : EvalTask)
    → tasks_of (m ++ (k, tc) ∷ []) ≡ tasks_of m ++ tc ∷ []
tasks_of-snoc [] k tc = refl
tasks_of-snoc ((j, t) ∷ m) k tc = ap (λ l. t ∷ l) (tasks_of-snoc m k tc)

length-tasks_of : (m : Entries) → length (tasks_of m) ≡ length m
length-tasks_of [] = refl
length-tasks_of ((j, t) ∷ m) = ap suc (length-tasks_of m)

abbrev or_at : Option ℕ → Option ℕ → Option ℕ
or_at (some i) o = some i
or_at none o = o

next-or_at : (a b : Option ℕ) → next_index (or_at a b) ≡ or_at (next_index a) (next_index b)
next-or_at none b = refl
next-or_at (some i) b = refl

index_of-snoc :
    (j k : String) (tc : EvalTask) (m : Entries)
    → index_of j (m ++ (k, tc) ∷ [])
      ≡ or_at (index_of j m) (if str_eq k j then some (length m) else none)
index_of-snoc j k tc [] = refl
index_of-snoc j k tc ((i, t) ∷ m) = elim (Bool-cases (str_eq i j)) [
  | inl q ↦ rw q refl
  | inr q ↦ rw q (
      ap next_index (index_of-snoc j k tc m)
      ∙ next-or_at (index_of j m) _
      ∙ ap (or_at (next_index (index_of j m)))
          (elim (Bool-cases (str_eq k j)) [ inl p ↦ rw p refl | inr p ↦ rw p refl ]))
]

-- A path that is there already.
place-indices :
    (j : String) (v : Visit) (m : Entries) (i : ℕ)
    → index_of v.canonical m ≡ some i
    → index_of j (place v m) ≡ index_of j m
place-indices j v [] i e = absurd (cc e)
place-indices j v ((k, tc) ∷ m) i e = elim (Bool-cases (str_eq k v.canonical)) [
  | inl q ↦ ap (index_of j) (if_true _ q)
  | inr q ↦ elim (Option-cases (index_of v.canonical m)) [
    | inl f ↦ absurd (cc (sym (if_false (some 0) q) ∙ e, f))
    | inr (i', f) ↦
        ap (index_of j) (if_false _ q)
        ∙ ap (λ o. if str_eq k j then some 0 else next_index o) (place-indices j v m i' f)
  ]
]

with_more-none : (v : Visit) (tc : EvalTask) → v.assertions ≡ none → with_more v tc ≡ tc
with_more-none v tc e =
    ap (λ l. record tc { assertions = l })
      (ap (λ a. tc.assertions ++ given a) e ∙ append-nil tc.assertions)

place-none :
    (v : Visit) (m : Entries) (i : ℕ)
    → v.assertions ≡ none
    → index_of v.canonical m ≡ some i
    → tasks_of (place v m) ≡ tasks_of m
place-none v [] i e f = absurd (cc f)
place-none v ((k, tc) ∷ m) i e f = elim (Bool-cases (str_eq k v.canonical)) [
  | inl q ↦ ap tasks_of (if_true _ q) ∙ ap (λ t. t ∷ tasks_of m) (with_more-none v tc e)
  | inr q ↦ elim (Option-cases (index_of v.canonical m)) [
    | inl g ↦ absurd (cc (sym (if_false (some 0) q) ∙ f, g))
    | inr (j, g) ↦ ap tasks_of (if_false _ q) ∙ ap (λ l. tc ∷ l) (place-none v m j e g)
  ]
]

append_some :
    (v : Visit) (a : TaskAssertions) (m : Entries) (i : ℕ)
    → v.assertions ≡ some a
    → index_of v.canonical m ≡ some i
    → append_assertions i (some a) (tasks_of m) ≡ some (tasks_of (place v m))
unfolding append_assertions
append_some v a [] i e f = absurd (cc f)
append_some v a ((k, tc) ∷ m) i e f = elim (Bool-cases (str_eq k v.canonical)) [
  | inl q ↦
      let z : 0 ≡ i = cc (sym (if_true _ q) ∙ f) in
      ap (λ n. append_assertions n (some a) (tc ∷ tasks_of m)) (sym z)
      ∙ ap (λ o. some (record tc { assertions = tc.assertions ++ given o } ∷ tasks_of m)) (sym e)
      ∙ ap (λ l. some (tasks_of l)) (sym (if_true _ q))
  | inr q ↦ elim (Option-cases (index_of v.canonical m)) [
    | inl g ↦ absurd (cc (sym (if_false (some 0) q) ∙ f, g))
    | inr (j, g) ↦
        let z : suc j ≡ i = cc (sym (if_false (some 0) q) ∙ f, g) in
        ap (λ n. append_assertions n (some a) (tc ∷ tasks_of m)) (sym z)
        ∙ ap (λ o. o >>= (λ rest. some (tc ∷ rest))) (append_some v a m j e g)
        ∙ ap (λ l. some (tasks_of l)) (sym (if_false _ q))
  ]
]

append_assertions-place :
    (v : Visit) (m : Entries) (i : ℕ)
    → index_of v.canonical m ≡ some i
    → append_assertions i v.assertions (tasks_of m) ≡ some (tasks_of (place v m))
unfolding append_assertions
append_assertions-place v m i f = elim (Option-cases v.assertions) [
  | inl e ↦
      ap (λ o. append_assertions i o (tasks_of m)) e ∙ ap (λ l. some l) (sym (place-none v m i e f))
  | inr (a, e) ↦ ap (λ o. append_assertions i o (tasks_of m)) e ∙ append_some v a m i e f
]

or_at-none : (o : Option ℕ) → or_at o none ≡ o
or_at-none none = refl
or_at-none (some i) = refl

new_index :
    (v : Visit) (k : String) (c : Collected) (m : Entries)
    → Shows c m
    → index_of v.canonical m ≡ none
    → lookup k (insert v.canonical (length c.task_configs) c.seen) ≡ index_of k (place v m)
new_index v k c m s e =
    lookup-insert_if v.canonical k (length c.task_configs) c.seen
    ∙ elim (Bool-cases (str_eq v.canonical k)) [
      | inl q ↦
          let f : index_of k m ≡ none =
            ap (λ j. index_of j m) (sym ((eq_iff v.canonical k).0 q)) ∙ e in
          if_true _ q
          ∙ ap (λ n. some n) (ap length s.tasks ∙ length-tasks_of m)
          ∙ sym (ap (λ o. or_at o (some (length m))) f)
          ∙ ap (or_at (index_of k m)) (sym (if_true none q))
      | inr q ↦
          if_false _ q
          ∙ s.indices k
          ∙ sym (or_at-none (index_of k m))
          ∙ ap (or_at (index_of k m)) (sym (if_false (some (length m)) q))
    ]
    ∙ sym (index_of-snoc k v.canonical (new_entry v).1 m)
    ∙ ap (index_of k) (sym (place-new v m e))

-- One task that is selected.
pub select_task-Shows :
    (v : Visit) (c : Collected) (m : Entries)
    → Shows c m
    → (next : Collected) × (select_task v.canonical v.display v.spec v.assertions c ≡ some next)
      × Shows next (place v m)
unfolding select_task
select_task-Shows v c m s = elim (Option-cases (index_of v.canonical m)) [
  | inl e ↦ (
    record {
      task_configs = c.task_configs ++ (new_entry v).1 ∷ [];
      seen = insert v.canonical (length c.task_configs) c.seen;
    },
    rw (select_task, s.indices v.canonical ∙ e) refl,
    record {
      tasks =
          ap (λ l. l ++ (new_entry v).1 ∷ []) s.tasks
          ∙ sym (tasks_of-snoc m v.canonical (new_entry v).1)
          ∙ ap tasks_of (sym (place-new v m e));
      indices = λ k. new_index v k c m s e;
    },
  )
  | inr (i, e) ↦ (
    record c { task_configs = tasks_of (place v m) },
    rw (select_task, s.indices v.canonical ∙ e)
        (ap (λ o. o >>= (λ tasks. some (record c { task_configs = tasks })))
          (ap (append_assertions i v.assertions) s.tasks ∙ append_assertions-place v m i e)),
    record { tasks = refl; indices = λ k. s.indices k ∙ sym (place-indices k v m i e) },
  )
]
