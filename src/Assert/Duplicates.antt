-- ===== src/Assert/Duplicates.antt =====
-- `noDuplicateCallsEvaluator.Evaluate` of pkg/eval/assert.go. The map `seen` is the list of its keys.
use mcpchecker.Prelude.{
  true, refl, arith, eq_iff, inr, sym, Bool-cases, inl, ◌↔◌, Option-cases, All, String, str_eq,
  false, Option, none, some, List, [], ◌∷◌, ◌≡◌, ◌≢◌, if◌then◌else◌, any, Any, show_bytes, concat,
  ◌>>=◌,
}
use mcpchecker.Proxy.{ToolCall}
use mcpchecker.Assert.{SingleAssertionResult}
use mcpchecker.Assert.Order.{Verdict-iff, Verdict, pass}

-- `fmt.Sprintf("%s:%s:%v", …)`. A call with no request is a nil dereference.
unfoldable pub call_key : ToolCall → Option String
call_key c = do
  req ← c.request
  some (concat (c.server_name ∷ ":" ∷ c.tool_name ∷ ":" ∷ show_bytes req.arguments ∷ []))

duplicate : ToolCall → SingleAssertionResult
duplicate c = record {
  passed = false;
  reason = concat ("Duplicate call detected: " ∷ c.server_name ∷ "." ∷ c.tool_name ∷ []);
  details = [];
}

scan : List String → List ToolCall → Option SingleAssertionResult
unfolding duplicate
scan seen [] = some pass
scan seen (c ∷ cs) = do
  key ← call_key c
  let rest = scan (key ∷ seen) cs
  if any (str_eq key) seen then some (duplicate c) else rest

unfoldable pub evaluate_no_duplicates : List ToolCall → Option SingleAssertionResult
unfolding scan
evaluate_no_duplicates calls = scan [] calls

-- Every call has a request.
abbrev pub HaveRequests : List ToolCall → Type 0
HaveRequests [] = Unit
HaveRequests (c ∷ cs) = (c.request ≢ none) × HaveRequests cs

-- The keys of the calls.
abbrev pub keys : List ToolCall → List String
keys [] = []
keys (c ∷ cs) = elim (call_key c) [ some key ↦ key ∷ keys cs | none ↦ keys cs ]

abbrev In : List String → String → Type 0
In seen key = Any (λ k. key ≡ k) seen

-- No two of the keys are the same.
abbrev pub Distinct : List String → Type 0
Distinct [] = Unit
Distinct (k ∷ ks) = ¬ In ks k × Distinct ks

any-In : (key : String) (seen : List String) → (any (str_eq key) seen ≡ true) ↔ In seen key
any-In key [] = (λ h. cc, λ h. absurd h)
any-In key (k ∷ seen) = (
  λ h. elim (Bool-cases (str_eq key k)) [
    | inl e ↦ inl ((eq_iff key k).0 e)
    | inr n ↦ inr ((any-In key seen).0 (ground arith))
  ],
  elim [ inl e ↦ rw ((eq_iff key k).1 e) | inr m ↦ ground (arith, (any-In key seen).1 m) ],
)

-- What one more seen key adds to the condition on the keys that follow.
All-In :
    (key : String) (seen ks : List String)
    → All (λ k. ¬ In (key ∷ seen) k) ks ↔ (¬ In ks key × All (λ k. ¬ In seen k) ks)
All-In key seen [] = (λ _. (λ m. m, tt), λ _. tt)
All-In key seen (k ∷ ks) =
    let (f, g) = All-In key seen ks in
    (
      λ (n, h). (elim [ inl e ↦ n (inl (sym e)) | inr m ↦ (f h).0 m ], (λ m. n (inr m), (f h).1)),
      λ (n, h). (elim [ inl e ↦ n (inl (sym e)) | inr m ↦ h.0 m ], g (λ m. n (inr m), h.1)),
    )

-- A call with a request has a key.
call_key-some : (c : ToolCall) → c.request ≢ none → (key : String) × (call_key c ≡ some key)
unfolding call_key
call_key-some c h = elim (Option-cases c.request) [
  | inl e ↦ absurd (h e)
  | inr (req, e) ↦ rw e (_, refl)
]

scan-Verdict :
    (seen : List String) (cs : List ToolCall)
    → HaveRequests cs
    → Verdict (scan seen cs) (All (λ k. ¬ In seen k) (keys cs) × Distinct (keys cs))
unfolding scan
scan-Verdict seen [] h = (λ _. (tt, tt), λ _. refl)
scan-Verdict seen (c ∷ cs) h =
    let (key, e) = call_key-some c h.0 in
    let (f, g) = All-In key seen (keys cs) in
    rw (e, keys)
      (elim (Bool-cases (any (str_eq key) seen)) [
        | inl old ↦ rw old (λ x. cc, λ p. absurd (p.0.0 ((any-In key seen).0 old)))
        | inr new ↦ rw new (
            Verdict-iff _
              (
                λ (a, d). (((λ m. cc ((any-In key seen).1 m)), (f a).1), ((f a).0, d)),
                λ (a, d). (g (d.0, a.1), d.1),
              )
              (scan-Verdict (key ∷ seen) cs h.1))
      ])

-- If every call has a request, the evaluator reaches a verdict, and passes exactly when no two tool
-- calls have the same key.
pub evaluate_no_duplicates_iff :
    (cs : List ToolCall)
    → HaveRequests cs
    → Verdict (evaluate_no_duplicates cs) (Distinct (keys cs))
unfolding evaluate_no_duplicates
evaluate_no_duplicates_iff cs h =
    Verdict-iff _ (λ p. p.1, λ d. (none-In (keys cs), d)) (scan-Verdict [] cs h)
  where
    none-In : (ks : List String) → All (λ k. ¬ In [] k) ks
    none-In [] = tt
    none-In (k ∷ ks) = (λ m. m, none-In ks)
