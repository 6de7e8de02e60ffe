-- ===== src/Prelude/Lists.antt =====
-- Lists measured by native numbers, searched by Boolean tests, and the predicates that say what such
-- a search finds.
use Prim.Native.Nat.{ℕ, zero, suc, ◌+◌}
use mathlib.Core.Path.{◌≡◌, refl, ap}
use mathlib.Core.Logic.{◌↔◌, ◌⊎◌, inl, inr}
use mathlib.Core.Bool.{Bool, true, false, ◌&&◌, ◌||◌}
use mathlib.Core.List.{List, [], ◌∷◌, ◌++◌}
use mathlib.Core.Option.{Option, none, some}
use native.Mathlib.Omega.{arith}

module _ {ℓ} {A : Type ℓ} where
  abbrev pub length : List A → ℕ
  length [] = 0
  length (x ∷ xs) = suc (length xs)

  abbrev pub get_elem? : List A → ℕ → Option A
  get_elem? [] i = none
  get_elem? (x ∷ xs) zero = some x
  get_elem? (x ∷ xs) (suc i) = get_elem? xs i

  pub length-append : (xs ys : List A) → length (xs ++ ys) ≡ length xs + length ys
  length-append [] ys = omega arith
  length-append (x ∷ xs) ys = omega (arith, length-append xs ys)

  -- Some element passes the test; all elements do.
  abbrev pub any : (A → Bool) → List A → Bool
  any p [] = false
  any p (x ∷ xs) = p x || any p xs

  abbrev pub all : (A → Bool) → List A → Bool
  all p [] = true
  all p (x ∷ xs) = p x && all p xs

-- `P` holds of every element; of some element.
module _ {ℓ} {A : Type ℓ} (P : A → Type 0) where
  abbrev pub All : List A → Type 0
  All [] = Unit
  All (x ∷ xs) = P x × All xs

  abbrev pub Any : List A → Type 0
  Any [] = ⊥
  Any (x ∷ xs) = P x ⊎ Any xs

or_iff : {P : Type 0} (b c : Bool) → (c ≡ true) ↔ P → (b || c ≡ true) ↔ ((b ≡ true) ⊎ P)
or_iff true c e = (λ _. inl refl, λ _. refl)
or_iff false c e = (λ h. inr (e.0 h), elim [ inl h ↦ cc | inr h ↦ e.1 h ])

and_iff : {P : Type 0} (b c : Bool) → (c ≡ true) ↔ P → (b && c ≡ true) ↔ ((b ≡ true) × P)
and_iff true c e = (λ h. (refl, e.0 h), λ h. e.1 h.1)
and_iff false c e = (λ h. cc, λ h. h.0)

module _ {ℓ} {A : Type ℓ} (p : A → Bool) where
  pub any_iff : (xs : List A) → (any p xs ≡ true) ↔ Any (λ x. p x ≡ true) xs
  any_iff [] = (λ h. cc, λ h. absurd h)
  any_iff (x ∷ xs) = or_iff (p x) (any p xs) (any_iff xs)

  pub all_iff : (xs : List A) → (all p xs ≡ true) ↔ All (λ x. p x ≡ true) xs
  all_iff [] = (λ _. tt, λ _. refl)
  all_iff (x ∷ xs) = and_iff (p x) (all p xs) (all_iff xs)

module _ {ℓ} {A : Type ℓ} (P : A → Type 0) where
  pub Any-append : (xs ys : List A) → Any P (xs ++ ys) ↔ (Any P xs ⊎ Any P ys)
  Any-append [] ys = (inr, elim [ inl h ↦ absurd h | inr h ↦ h ])
  Any-append (x ∷ xs) ys =
      let (f, g) = Any-append xs ys in
      (
        elim [ inl h ↦ inl (inl h) | inr h ↦ elim (f h) [ inl k ↦ inl (inr k) | inr k ↦ inr k ] ],
        elim [
          | inl h ↦ elim h [ inl k ↦ inl k | inr k ↦ inr (g (inl k)) ]
          | inr h ↦ inr (g (inr h))
        ],
      )

  pub Any-last : (xs : List A) (x : A) → Any P (xs ++ x ∷ []) ↔ (Any P xs ⊎ P x)
  Any-last xs x =
      let (f, g) = Any-append xs (x ∷ []) in
      (
        λ h. elim (f h) [ inl y ↦ inl y | inr y ↦ elim y [ inl z ↦ inr z | inr z ↦ absurd z ] ],
        elim [ inl y ↦ g (inl y) | inr y ↦ g (inr (inl y)) ],
      )

pub All-append {ℓ} :
    {A : Type ℓ} (P : A → Type 0) (xs ys : List A) → All P xs → All P ys → All P (xs ++ ys)
All-append P [] ys p q = q
All-append P (x ∷ xs) ys p q = (p.0, All-append P xs ys p.1 q)

pub append_assoc {ℓ} : {A : Type ℓ} (xs ys zs : List A) → (xs ++ ys) ++ zs ≡ xs ++ (ys ++ zs)
append_assoc [] ys zs = refl
append_assoc (x ∷ xs) ys zs = ap (λ l. x ∷ l) (append_assoc xs ys zs)

pub append-nil {ℓ} : {A : Type ℓ} (xs : List A) → xs ++ [] ≡ xs
append-nil [] = refl
append-nil (x ∷ xs) = ap (λ l. x ∷ l) (append-nil xs)
