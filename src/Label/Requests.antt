-- ===== src/Label/Requests.antt =====
-- What `ParseLabelSelector` of pkg/eval/label_selector.go reads: the values of each key.
use mcpchecker.Prelude.Assoc.{
  DistinctKeys, insert, insert-DistinctKeys, lookup, lookup-insert, lookup-insert_same,
}
use mcpchecker.Prelude.Result.{ok, err, Result-cases}
use mathlib.Core.Path.{subst}
use mcpchecker.Prelude.{
  none, Any, Bool-cases, List, String, [], ap, arith, eq_iff, if◌then◌else◌, inl, inr, refl, some,
  str_eq, sym, true, ◌++◌, ◌↔◌, ◌∙◌, ◌∷◌, ◌≡◌, ◌≢◌, ◌⊎◌,
}
use mcpchecker.Label.{contains_value}
use mcpchecker.Label.Parse.{
  has_value, parse_label_selector, parse_pairs, split, trim_space, Requested, append_unique,
  values_of, parse_pair,
}

-- `v` is one of the values that are asked for under `k`.
abbrev pub Requests : Requested → String → String → Type 0
Requests labels k v = contains_value (values_of k labels) v ≡ true

pub parse_pairs-step :
    (pair : String) (pairs : List String) (labels : Requested) {k v : String}
    → parse_pair pair ≡ ok (k, v)
    → parse_pairs (pair ∷ pairs) labels
      ≡ parse_pairs pairs (insert k (append_unique (values_of k labels) v) labels)
unfolding parse_pairs
parse_pairs-step pair pairs labels q = rw q

pub parse_pairs-fails :
    (pair : String) (pairs : List String) (labels : Requested) {m : String}
    → parse_pair pair ≡ err m
    → parse_pairs (pair ∷ pairs) labels ≡ err m
unfolding parse_pairs
parse_pairs-fails pair pairs labels q = rw q

parse_pairs-DistinctKeys :
    (pairs : List String) (labels : Requested) {got : Requested}
    → DistinctKeys labels
    → parse_pairs pairs labels ≡ ok got
    → DistinctKeys got
unfolding parse_pairs
parse_pairs-DistinctKeys [] labels {got} d e =
    let same : labels ≡ got = cc in subst DistinctKeys same d
parse_pairs-DistinctKeys (pair ∷ pairs) labels {got} d e = elim (Result-cases (parse_pair pair)) [
  | inl (m, q) ↦ cc (parse_pairs-fails pair pairs labels q)
  | inr ((k, v), q) ↦
      parse_pairs-DistinctKeys pairs (insert k (append_unique (values_of k labels) v) labels)
        {got = got} (insert-DistinctKeys k _ labels d)
        (sym (parse_pairs-step pair pairs labels q) ∙ e)
]

-- The keys of a selector that was parsed are distinct.
pub parse-DistinctKeys :
    (selector : String) {labels : Requested}
    → parse_label_selector selector ≡ ok labels
    → DistinctKeys labels
unfolding parse_label_selector
parse-DistinctKeys selector {labels} e = elim (Bool-cases (str_eq (trim_space selector) "")) [
  | inl q ↦ let same : [] ≡ labels = ground arith in subst DistinctKeys same tt
  | inr q ↦
      parse_pairs-DistinctKeys (split b',' (trim_space selector)) [] {got = labels} tt
        (ground arith)
]

contains-append :
    (vs : List String) (v w : String)
    → (contains_value (vs ++ v ∷ []) w ≡ true) ↔ ((contains_value vs w ≡ true) ⊎ (v ≡ w))
unfolding contains_value
contains-append [] v w = (
  λ h. inr ((eq_iff v w).0 (ground arith)),
  elim [ inl h ↦ cc | inr h ↦ rw ((eq_iff v w).1 h) refl ],
)
contains-append (x ∷ vs) v w = elim (Bool-cases (str_eq x w)) [
  | inl q ↦ rw q (λ _. inl refl, λ _. refl)
  | inr q ↦ rw q (contains-append vs v w)
]

has_value-contains : (vs : List String) (v : String) → has_value vs v ≡ contains_value vs v
unfolding has_value contains_value
has_value-contains [] v = refl
has_value-contains (x ∷ vs) v = rw (has_value-contains vs v) refl

contains-append_unique :
    (vs : List String) (v w : String)
    → (contains_value (append_unique vs v) w ≡ true) ↔ ((contains_value vs w ≡ true) ⊎ (v ≡ w))
unfolding append_unique
contains-append_unique vs v w = elim (Bool-cases (has_value vs v)) [
  | inl q ↦
      let there : contains_value vs v ≡ true = sym (has_value-contains vs v) ∙ q in
      rw q (inl, elim [ inl h ↦ h | inr h ↦ subst (λ x. contains_value vs x ≡ true) h there ])
  | inr q ↦ rw q (contains-append vs v w)
]

values_of-insert_same :
    (k : String) (vs : List String) (m : Requested) → values_of k (insert k vs m) ≡ vs
unfolding values_of
values_of-insert_same k vs m =
    ap (λ o. elim o as (λ _. List String) [ none ↦ [] | some vs ↦ vs ]) (lookup-insert_same k vs m)

values_of-insert :
    (k j : String) (vs : List String) (m : Requested)
    → j ≢ k
    → values_of j (insert k vs m) ≡ values_of j m
unfolding values_of
values_of-insert k j vs m n =
    ap (λ o. elim o as (λ _. List String) [ none ↦ [] | some vs ↦ vs ]) (lookup-insert k j vs m n)

-- One more pair.
insert-Requests :
    (k v : String) (labels : Requested) (j w : String)
    → Requests (insert k (append_unique (values_of k labels) v) labels) j w
      ↔ (Requests labels j w ⊎ ((k ≡ j) × (v ≡ w)))
insert-Requests k v labels j w = elim (Bool-cases (str_eq k j)) [
  | inl q ↦
      let p : k ≡ j = (eq_iff k j).0 q in
      subst
        (λ j.
          Requests (insert k (append_unique (values_of k labels) v) labels) j w
          ↔ (Requests labels j w ⊎ ((k ≡ j) × (v ≡ w))))
        p
        (let (f, g) = contains-append_unique (values_of k labels) v w in
          rw (values_of-insert_same k (append_unique (values_of k labels) v) labels) (
            λ h. elim (f h) [ inl y ↦ inl y | inr y ↦ inr (refl, y) ],
            elim [ inl y ↦ g (inl y) | inr y ↦ g (inr y.1) ],
          ))
  | inr q ↦
      let n : j ≢ k = λ p. cc ((eq_iff k j).1 (sym p)) in
      rw (values_of-insert k j (append_unique (values_of k labels) v) labels n)
        (inl, elim [ inl h ↦ h | inr h ↦ absurd (n (sym h.0)) ])
]

parse_pairs_iff :
    (pairs : List String) (labels : Requested) {got : Requested} (k v : String)
    → parse_pairs pairs labels ≡ ok got
    → Requests got k v ↔ (Requests labels k v ⊎ Any (λ pair. parse_pair pair ≡ ok (k, v)) pairs)
unfolding parse_pairs
parse_pairs_iff [] labels {got} k v e =
    let same : labels ≡ got = cc in
    subst (λ g. Requests g k v ↔ (Requests labels k v ⊎ ⊥)) same
      (inl, elim [ inl h ↦ h | inr h ↦ absurd h ])
parse_pairs_iff (pair ∷ pairs) labels {got} k v e = elim (Result-cases (parse_pair pair)) [
  | inl (m, q) ↦ cc (parse_pairs-fails pair pairs labels q)
  | inr ((j, w), q) ↦
      let (f, g) =
        parse_pairs_iff pairs (insert j (append_unique (values_of j labels) w) labels) {got = got} k
          v (sym (parse_pairs-step pair pairs labels q) ∙ e) in
      let (f', g') = insert-Requests j w labels k v in
      (
        λ h. elim (f h) [
          | inl y ↦ elim (f' y) [
            | inl z ↦ inl z
            | inr z ↦ inr (inl (q ∙ ap ok (let p : (j, w) ≡ (k, v) = cc in p)))
          ]
          | inr y ↦ inr (inr y)
        ],
        elim [
          | inl y ↦ g (inl (g' (inl y)))
          | inr y ↦ elim y [
            | inl z ↦
                let same : ok (j, w) ≡ ok (k, v) = sym q ∙ z in
                g (inl (g' (inr ((let p : j ≡ k = cc in p), (let p : w ≡ v = cc in p)))))
            | inr z ↦ g (inr z)
          ]
        ],
      )
]

-- The parts of a selector between commas, of which there are none in a blank selector.
abbrev pub pairs_of : String → List String
pairs_of selector = if str_eq (trim_space selector) "" then [] else split b',' (trim_space selector)

parse_label_selector_lem :
    (selector : String) → parse_label_selector selector ≡ parse_pairs (pairs_of selector) []
unfolding parse_label_selector parse_pairs
parse_label_selector_lem selector = elim (Bool-cases (str_eq (trim_space selector) "")) [
  | inl q ↦ rw q refl
  | inr q ↦ rw q refl
]

-- If a selector parses, a value is requested for a key exactly when some part of the selector reads as
-- that key and that value.
pub parse_label_selector_iff :
    (selector : String) (labels : Requested) (k v : String)
    → parse_label_selector selector ≡ ok labels
    → Requests labels k v ↔ Any (λ pair. parse_pair pair ≡ ok (k, v)) (pairs_of selector)
unfolding lookup values_of contains_value
parse_label_selector_iff selector labels k v e =
    let (f, g) =
      parse_pairs_iff (pairs_of selector) [] {got = labels} k v
        (sym (parse_label_selector_lem selector) ∙ e) in
    (λ h. elim (f h) [ inl y ↦ cc | inr y ↦ y ], λ h. g (inr h))
