-- ===== src/Config/Succeeds.antt =====
-- When a chain of checks of pkg/eval/config.go returns no error.
use mcpchecker.Config.Read.{unless_error}
use mcpchecker.Prelude.Result.{Result, err, ok, then_ok}
use mcpchecker.Prelude.{
  Bool-cases, eq_iff, inl, inr, str_eq, ◌≢◌, ◌⊎◌, Bool, Option, String, false, if◌then◌else◌, none,
  refl, some, true, ◌↔◌, ◌≡◌,
}

module _ {A : Type 0} where
  abbrev pub Succeeds : Result A → Type 0
  Succeeds r = (a : A) × (r ≡ ok a)

  pub unless_error_iff :
      (o : Option String) (r : Result A) → Succeeds (unless_error o r) ↔ ((o ≡ none) × Succeeds r)
  unfolding unless_error
  unless_error_iff none r = (λ h. (refl, h), λ h. h.1)
  unless_error_iff (some e) r = (λ (a, p). cc, λ h. cc)

  -- `if c { return err }`, and what follows.
  pub guard_iff :
      (c : Bool) (e : String) (r : Result A)
      → Succeeds (if c then err e else r) ↔ ((c ≡ false) × Succeeds r)
  guard_iff true e r = (λ (a, p). cc, λ h. cc)
  guard_iff false e r = (λ h. (refl, h), λ h. h.1)

-- A check, and what is made of its result.
pub then-ok_iff :
    {A B : Type 0} (r : Result A) (g : A → B) → Succeeds (then_ok r (λ a. ok (g a))) ↔ Succeeds r
then-ok_iff (ok a) g = (λ h. (a, refl), λ h. (g a, refl))
then-ok_iff (err e) g = (λ (b, p). cc, λ (a, p). cc)

pub ok-injective : {A : Type 0} (a b : A) → (ok a ≡ ok b) → a ≡ b
ok-injective a b e = cc e

-- Two strings, equal or not, with the answer of the test.
pub str_eq-cases :
    (s t : String) → ((str_eq s t ≡ true) × (s ≡ t)) ⊎ ((str_eq s t ≡ false) × (s ≢ t))
str_eq-cases s t = elim (Bool-cases (str_eq s t)) [
  | inl q ↦ inl (q, (eq_iff s t).0 q)
  | inr q ↦ inr (q, λ p. cc ((eq_iff s t).1 p))
]

-- Two checks, one after the other.
pub then_both_iff :
    {A B C : Type 0} (r : Result A) (s : Result B) (g : A → B → C)
    → Succeeds (then_ok r (λ a. then_ok s (λ b. ok (g a b)))) ↔ (Succeeds r × Succeeds s)
then_both_iff (ok a) s g = let (f, b) = then-ok_iff s (g a) in (λ h. ((a, refl), f h), λ h. b h.1)
then_both_iff (err e) s g = (λ (c, p). cc, λ ((a, p), h). cc)

-- What two checks in a row returned.
pub then_both-inverse :
    {A B C : Type 0} (r : Result A) (s : Result B) (g : A → B → C) (c : C)
    → then_ok r (λ a. then_ok s (λ b. ok (g a b))) ≡ ok c
    → (a : A) × (b : B) × (r ≡ ok a) × (s ≡ ok b) × (g a b ≡ c)
then_both-inverse (ok a) (ok b) g c e = (a, b, refl, refl, ok-injective (g a b) c e)
then_both-inverse (ok a) (err m) g c e = cc
then_both-inverse (err m) s g c e = cc
