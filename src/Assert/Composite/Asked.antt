-- ===== src/Assert/Composite/Asked.antt =====
-- Whether the field of a kind of assertion succeeds, where the kind is asked for and where it is not.
use mcpchecker.Proxy.{CallHistory}
use mcpchecker.Assert.{CallOrderAssertion, SingleAssertionResult, succeeded}
use mcpchecker.Prelude.{
  All, Bool, List, Option, [], false, if◌then◌else◌, none, refl, some, true, ◌↔◌, ◌∷◌, ◌≡◌, ◌≢◌,
}
use mcpchecker.Assert.Order.{
  Follows, IndexedCall, Verdict, all_calls, evaluate_call_order, evaluate_call_order_iff, pass,
}
use mathlib.Core.Path.{subst}
use mcpchecker.Prelude.Int.{ℤ}
use mcpchecker.Assert.Composite.Fields.{asked, asked_by}

-- A verdict is a result.
pub returned :
    {P : Type 0} (o : Option SingleAssertionResult)
    → Verdict o P
    → (r : SingleAssertionResult) × (o ≡ some r) × ((r.passed ≡ true) ↔ P)
returned none v = absurd v
returned (some r) v = (r, refl, v)

-- The result of the order check, where one is asked for.
pub order_result :
    (sort : List IndexedCall → List IndexedCall) (es : List CallOrderAssertion) (h : CallHistory)
    → (r : SingleAssertionResult) × (es ≢ [] → evaluate_call_order sort es h ≡ some r)
      × ((succeeded (asked es r) ≡ true) ↔ (es ≢ [] → Follows es (sort (all_calls h))))
unfolding succeeded
order_result sort [] h = (pass, λ n. absurd (n refl), (λ _ n. absurd (n refl), λ _. refl))
order_result sort (e ∷ es) h =
    let (r, eq, v) =
      returned (evaluate_call_order sort (e ∷ es) h) (evaluate_call_order_iff sort e es h) in
    (r, λ _. eq, (λ s _. v.0 s, λ f. v.1 (f (λ p. cc))))

-- Whether the field of a kind of assertion succeeds, from its evaluator's verdict: of a statement
-- that holds of no assertions at all, and of one that is made only where there are some.
pub asked_iff {ℓ} :
    {A : Type ℓ} {P : Type 0} (items : List A) (r : SingleAssertionResult)
    → ((r.passed ≡ true) ↔ P)
    → (items ≡ [] → P)
    → (succeeded (asked items r) ≡ true) ↔ P
unfolding succeeded
asked_iff [] r v n = (λ _. n refl, λ _. refl)
asked_iff (a ∷ items) r v n = v

pub asked_some_iff {ℓ} :
    {A : Type ℓ} {P : Type 0} (items : List A) (r : SingleAssertionResult)
    → ((r.passed ≡ true) ↔ P)
    → (succeeded (asked items r) ≡ true) ↔ (items ≢ [] → P)
unfolding succeeded
asked_some_iff [] r v = (λ _ n. absurd (n refl), λ _. refl)
asked_some_iff (a ∷ items) r v = (λ s _. v.0 s, λ f. v.1 (f (λ p. cc)))

pub All-none {ℓ} : {A : Type ℓ} (P : A → Type 0) (items : List A) → items ≡ [] → All P items
All-none P [] e = tt
All-none P (a ∷ items) e = cc

pub asked_by_iff :
    {P : ℤ → Type 0} (o : Option ℤ) (f : ℤ → SingleAssertionResult)
    → ((n : ℤ) → ((f n).passed ≡ true) ↔ P n)
    → (succeeded (asked_by o f) ≡ true) ↔ ((n : ℤ) → o ≡ some n → P n)
unfolding succeeded
asked_by_iff none f v = (λ _ n e. cc, λ _. refl)
asked_by_iff {P} (some m) f v =
    (λ s n e. let q : m ≡ n = cc in subst P q ((v m).0 s), λ k. (v m).1 (k m refl))

pub asked_if_iff :
    {P : Type 0} (b : Bool) (r : SingleAssertionResult)
    → ((r.passed ≡ true) ↔ P)
    → (succeeded (if b then some r else none) ≡ true) ↔ (b ≡ true → P)
unfolding succeeded
asked_if_iff true r v = (λ s _. v.0 s, λ p. v.1 (p refl))
asked_if_iff false r v = (λ _ e. cc, λ _. refl)
