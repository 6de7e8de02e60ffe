-- ===== src/Label/Expand.antt =====
-- `expandTaskSet` of pkg/eval/label_selector.go: which tasks its copies pick.
use mcpchecker.Prelude.Assoc.{DistinctKeys, lookup, lookup-insert, other_keys}
use mcpchecker.Label.Carries.{Carries, Carries-insert, Carries-lookup}
use mcpchecker.Prelude.{
  All-append, Any-append, All, Any, Bool-cases, List, Option, Option-cases, String, [], arith,
  eq_iff, inl, inr, map, none, refl, some, str_eq, true, ◌↔◌, ◌∙◌, ◌∷◌, ◌≡◌, ◌≢◌,
}
use mcpchecker.Label.{Labels, TaskSet, contains_value}
use mcpchecker.Label.Parse.{Requested}
use mcpchecker.Label.Filter.{with_label, expand_key, expand_loop, expand_task_set}

-- A task set but for its selector: which tasks it names, and what it asserts of them.
abbrev pub unlabelled : TaskSet → TaskSet
unlabelled ts = record ts { label_selector = [] }

-- A set that names the tasks of `base` picks a task with these labels.
abbrev pub Picks : TaskSet → Labels → TaskSet → Type 0
Picks base task ts = (unlabelled ts ≡ base) × Carries task ts.label_selector

-- The task has one of the values of the key.
abbrev pub HasOneOf : Labels → String → List String → Type 0
HasOneOf task k vs = (v : String) × (lookup k task ≡ some v) × (contains_value vs v ≡ true)

-- The task has one of the values of each key that is asked for.
abbrev pub Wanted : Labels → Requested → Type 0
Wanted task labels = All (λ (k, vs). HasOneOf task k vs) labels

module _ (base : TaskSet) (task : Labels) (k : String) where
  -- The copies of one set, one for each value.
  copies_iff :
      (r : TaskSet) (vs : List String)
      → lookup k r.label_selector ≡ none
      → Any (Picks base task) (map (with_label r k) vs) ↔ (Picks base task r × HasOneOf task k vs)
  unfolding contains_value
  copies_iff r [] e = (λ h. absurd h, λ (p, (v, q, c)). cc)
  copies_iff r (v ∷ vs) e =
      let (f, g) = Carries-insert task r.label_selector k v e in
      let (f', g') = copies_iff r vs e in
      (
        elim [
          | inl h ↦ ((h.0, (f h.1).0), (v, (f h.1).1, rw ((eq_iff v v).1 refl) refl))
          | inr h ↦
              let (p, (w, q, c)) = f' h in (p, (w, q, ground (arith, Bool-cases (str_eq v w))))
        ],
        λ (p, (w, q, c)). elim (Bool-cases (str_eq v w)) [
          | inl same ↦ inl (p.0, g (p.1, cc ((eq_iff v w).0 same)))
          | inr other ↦ inr (g' (p, (w, q, ground arith)))
        ],
      )

  expand_key_iff :
      (vs : List String) (rs : List TaskSet)
      → All (λ r. lookup k r.label_selector ≡ none) rs
      → Any (Picks base task) (expand_key k vs rs) ↔ (Any (Picks base task) rs × HasOneOf task k vs)
  unfolding expand_key
  expand_key_iff vs [] a = (λ h. absurd h, λ h. h.0)
  expand_key_iff vs (r ∷ rs) a =
      let (f, g) = Any-append (Picks base task) (map (with_label r k) vs) (expand_key k vs rs) in
      let (f', g') = copies_iff r vs a.0 in
      let (f'', g'') = expand_key_iff vs rs a.1 in
      (
        λ h. elim (f h) [ inl y ↦ (inl (f' y).0, (f' y).1) | inr y ↦ (inr (f'' y).0, (f'' y).1) ],
        λ (h, w). elim h [ inl y ↦ g (inl (g' (y, w))) | inr y ↦ g (inr (g'' (y, w))) ],
      )

  -- A key that the sets have already, with a value that is asked for.
  set_key_iff :
      (vs : List String) (existing : String) (rs : List TaskSet)
      → contains_value vs existing ≡ true
      → All (λ r. lookup k r.label_selector ≡ some existing) rs
      → Any (Picks base task) rs
      → HasOneOf task k vs
  set_key_iff vs existing [] c a h = absurd h
  set_key_iff vs existing (r ∷ rs) c a (inl h) =
      (existing, Carries-lookup task r.label_selector k h.1 a.0, c)
  set_key_iff vs existing (r ∷ rs) c a (inr h) = set_key_iff vs existing rs c a.1 h

-- What the sets of a loop's round have in common: on the keys still to come they say what the original
-- set says.
abbrev Agrees : TaskSet → Requested → TaskSet → Type 0
Agrees ts labels r = All (λ (k, vs). lookup k r.label_selector ≡ lookup k ts.label_selector) labels

-- No key of the original set has a value other than those asked for.
abbrev pub Compatible : TaskSet → Requested → Type 0
Compatible ts labels =
    All (λ (k, vs). (v : String) → lookup k ts.label_selector ≡ some v → contains_value vs v ≡ true)
      labels

with_label-Agrees :
    (ts r : TaskSet) (k v : String) (labels : Requested)
    → All (λ (j, vs). j ≢ k) labels
    → Agrees ts labels r
    → Agrees ts labels (with_label r k v)
with_label-Agrees ts r k v [] n a = tt
with_label-Agrees ts r k v ((j, vs) ∷ labels) n a =
    (lookup-insert k j v r.label_selector n.0 ∙ a.0, with_label-Agrees ts r k v labels n.1 a.1)

module _ (ts : TaskSet) (k : String) (labels : Requested) (n : All (λ (j, vs). j ≢ k) labels) where
  copies-Agrees :
      (r : TaskSet) (vs : List String)
      → Agrees ts labels r
      → All (Agrees ts labels) (map (with_label r k) vs)
  copies-Agrees r [] a = tt
  copies-Agrees r (v ∷ vs) a = (with_label-Agrees ts r k v labels n a, copies-Agrees r vs a)

  expand_key-Agrees :
      (vs : List String) (rs : List TaskSet)
      → All (Agrees ts labels) rs
      → All (Agrees ts labels) (expand_key k vs rs)
  unfolding expand_key
  expand_key-Agrees vs [] a = tt
  expand_key-Agrees vs (r ∷ rs) a =
      All-append (Agrees ts labels) _ _ (copies-Agrees r vs a.0) (expand_key-Agrees vs rs a.1)

-- The key at the head, and the rest.
heads :
    (ts : TaskSet) (k : String) (vs : List String) (labels : Requested) (rs : List TaskSet)
    (o : Option String)
    → lookup k ts.label_selector ≡ o
    → All (Agrees ts ((k, vs) ∷ labels)) rs
    → All (λ r. lookup k r.label_selector ≡ o) rs × All (Agrees ts labels) rs
heads ts k vs labels [] o e a = (tt, tt)
heads ts k vs labels (r ∷ rs) o e a =
    let (x, y) = heads ts k vs labels rs o e a.1 in ((a.0.0 ∙ e, x), (a.0.1, y))

expand_loop_iff :
    (base : TaskSet) (task : Labels) (ts : TaskSet) (labels : Requested) (rs : List TaskSet)
    → DistinctKeys labels
    → Compatible ts labels
    → All (Agrees ts labels) rs
    → Any (Picks base task) (expand_loop ts labels rs)
      ↔ (Any (Picks base task) rs × Wanted task labels)
unfolding expand_loop
expand_loop_iff base task ts [] rs d c a = (λ h. (h, tt), λ h. h.0)
expand_loop_iff base task ts ((k, vs) ∷ labels) rs d c a =
    elim (Option-cases (lookup k ts.label_selector)) [
      | inl e ↦
          let (x, y) = heads ts k vs labels rs none e a in
          let n = other_keys k labels d.0 in
          let (f, g) =
            expand_loop_iff base task ts labels (expand_key k vs rs) d.1 c.1
              (expand_key-Agrees ts k labels n vs rs y) in
          let (f', g') = expand_key_iff base task k vs rs x in
          rw (expand_loop, e)
            (λ h. ((f' (f h).0).0, ((f' (f h).0).1, (f h).1)), λ (h, w). g (g' (h, w.0), w.1))
      | inr (v, e) ↦
          let (x, y) = heads ts k vs labels rs (some v) e a in
          let (f, g) = expand_loop_iff base task ts labels rs d.1 c.1 y in
          rw (expand_loop, e)
            (
              λ h. ((f h).0, (set_key_iff base task k vs v rs (c.0 v e) x (f h).0, (f h).1)),
              λ (h, w). g (h, w.1),
            )
    ]

self-Agrees : (ts : TaskSet) (labels : Requested) → Agrees ts labels ts
self-Agrees ts [] = tt
self-Agrees ts (kv ∷ labels) = (refl, self-Agrees ts labels)

-- If no requested key stands twice and the set is compatible, some copy picks a task exactly when the
-- set itself does and the task has one of the requested values of each key.
pub expand_task_set_iff :
    (base : TaskSet) (task : Labels) (ts : TaskSet) (labels : Requested)
    → DistinctKeys labels
    → Compatible ts labels
    → Any (Picks base task) (expand_task_set ts labels) ↔ (Picks base task ts × Wanted task labels)
unfolding expand_task_set
expand_task_set_iff base task ts labels d c =
    let (f, g) = expand_loop_iff base task ts labels (ts ∷ []) d c (self-Agrees ts labels, tt) in
    (λ h. (elim (f h).0 [ inl p ↦ p | inr p ↦ absurd p ], (f h).1), λ (p, w). g (inl p, w))
