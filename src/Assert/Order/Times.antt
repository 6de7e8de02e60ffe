-- ===== src/Assert/Order/Times.antt =====
-- What a passed check of the call order says of the times of the calls, when package sort keeps its
-- promise.
use mcpchecker.Prelude.{
  All, Any, List, Option, [], ap, inl, inr, none, refl, some, sym, true, ◌∙◌, ◌∷◌, ◌≡◌, ◌≤◌,
}
use mathlib.Core.List.{Permᴰ}
use mathlib.Core.Path.{subst}
use mcpchecker.Proxy.{CallHistory}
use mcpchecker.Assert.{CallOrderAssertion, SingleAssertionResult}
use mcpchecker.Assert.Order.{
  all_calls, evaluate_call_order, evaluate_call_order_iff, is_expected, IndexedCall, Follows,
  Verdict,
}

-- No call is earlier than one before it.
abbrev pub IsChronological : List IndexedCall → Type 0
IsChronological [] = Unit
IsChronological (c ∷ cs) = All (λ d. c.timestamp ≤ d.timestamp) cs × IsChronological cs

-- One call for each expected one.
abbrev pub Meet : List CallOrderAssertion → List IndexedCall → Type 0
Meet [] [] = Unit
Meet [] (m ∷ ms) = ⊥
Meet (e ∷ es) [] = ⊥
Meet (e ∷ es) (m ∷ ms) = (is_expected m e ≡ true) × Meet es ms

abbrev pub Among : List IndexedCall → IndexedCall → Type 0
Among cs m = Any (λ c. m ≡ c) cs

All-Among :
    (P : IndexedCall → Type 0) (cs : List IndexedCall) (m : IndexedCall)
    → All P cs
    → Among cs m
    → P m
All-Among P [] m a h = absurd h
All-Among P (c ∷ cs) m a (inl e) = subst P (sym e) a.0
All-Among P (c ∷ cs) m a (inr h) = All-Among P cs m a.1 h

map-All :
    {P Q : IndexedCall → Type 0} (ms : List IndexedCall)
    → ((m : IndexedCall) → P m → Q m)
    → All P ms
    → All Q ms
map-All [] f a = tt
map-All {P} {Q} (m ∷ ms) f a = (f m a.0, map-All {P = P} {Q = Q} ms f a.1)

Among-Perm : {xs ys : List IndexedCall} (m : IndexedCall) → Permᴰ xs ys → Among xs m → Among ys m
Among-Perm m Permᴰ.nil h = h
Among-Perm m (Permᴰ.cons e d) (inl p) = inl (p ∙ e)
Among-Perm m (Permᴰ.cons e d) (inr h) = inr (Among-Perm m d h)
Among-Perm m (Permᴰ.swap e f) (inl p) = inr (inl (p ∙ e))
Among-Perm m (Permᴰ.swap e f) (inr (inl p)) = inl (p ∙ f)
Among-Perm m (Permᴰ.swap e f) (inr (inr h)) = inr (inr h)
Among-Perm m (Permᴰ.trans d e) h = Among-Perm m e (Among-Perm m d h)

-- The calls that meet the expected ones, out of a chronological list.
met_calls :
    (es : List CallOrderAssertion) (cs : List IndexedCall)
    → Follows es cs
    → IsChronological cs
    → (ms : List IndexedCall) × Meet es ms × IsChronological ms × All (Among cs) ms
met_calls es cs Follows.done k = ([], tt, tt, tt)
met_calls es (c ∷ cs) (Follows.skip f) k =
    let (ms, x, y, z) = met_calls es cs f k.1 in (ms, x, y, map-All ms (λ m h. inr h) z)
met_calls (e ∷ es) (c ∷ cs) (Follows.meet h f) k =
    let (ms, x, y, z) = met_calls es cs f k.1 in
    (
      c ∷ ms,
      (h, x),
      (map-All ms (λ m i. All-Among (λ d. c.timestamp ≤ d.timestamp) cs m k.0 i) z, y),
      (inl refl, map-All ms (λ m i. inr i) z),
    )

passed_Follows :
    (o : Option SingleAssertionResult) {r : SingleAssertionResult} {P : Type 0}
    → Verdict o P
    → o ≡ some r
    → r.passed ≡ true
    → P
passed_Follows none v e p = cc
passed_Follows (some q) {r} v e p = let same : q ≡ r = cc in v.0 (ap (λ x. x.passed) same ∙ p)

-- If the sort of a history's calls reorders them by time and the check of the call order passes, there
-- are calls of the history that meet the expected ones one by one, none earlier than the one before it.
pub evaluate_call_order_times :
    (sort : List IndexedCall → List IndexedCall)
    → (e : CallOrderAssertion) (es : List CallOrderAssertion) (h : CallHistory)
    → (r : SingleAssertionResult) → Permᴰ (sort (all_calls h)) (all_calls h)
    → IsChronological (sort (all_calls h))
    → evaluate_call_order sort (e ∷ es) h ≡ some r
    → r.passed ≡ true
    → (ms : List IndexedCall) × Meet (e ∷ es) ms × IsChronological ms × All (Among (all_calls h)) ms
evaluate_call_order_times sort e es h r perm k q p =
    let f =
      passed_Follows (evaluate_call_order sort (e ∷ es) h) (evaluate_call_order_iff sort e es h) q
        p in
    let (ms, x, y, z) = met_calls (e ∷ es) (sort (all_calls h)) f k in
    (ms, x, y, map-All ms (λ m i. Among-Perm m perm i) z)
