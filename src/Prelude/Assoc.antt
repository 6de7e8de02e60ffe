-- ===== src/Prelude/Assoc.antt =====
-- A Go map as an association list, in the order in which `range` happens to walk it.
use mcpchecker.Prelude.Tests.{if◌then◌else◌, Bool-cases}
use mcpchecker.Prelude.Lists.{All}
use Prim.Native.String.{String}
use text.Mathlib.Text.{◌==◌ as str_eq}
use text.Mathlib.TextEquality.{eq_iff}
use mathlib.Core.Path.{◌≡◌, refl, ap, sym, ◌∙◌}
use mathlib.Core.Logic.{◌≢◌, inl, inr}
use mathlib.Core.Option.{Option, none, some}
use mathlib.Core.List.{List, [], ◌∷◌}
use native.Mathlib.Omega.{arith}

module _ {V : Type 0} where
  -- `m[k]`, with whether it is there.
  unfoldable pub lookup : String → List (String × V) → Option V
  lookup k [] = none
  lookup k ((j, v) ∷ m) = if str_eq j k then some v else lookup k m

  -- `m[k] = v`
  unfoldable pub insert : String → V → List (String × V) → List (String × V)
  insert k v [] = (k, v) ∷ []
  insert k v ((j, w) ∷ m) = if str_eq j k then (j, v) ∷ m else (j, w) ∷ insert k v m

  pub lookup-insert :
      (k j : String) (v : V) (m : List (String × V)) → j ≢ k → lookup j (insert k v m) ≡ lookup j m
  unfolding lookup insert
  lookup-insert k j v [] n = ground (arith, eq_iff k j)
  lookup-insert k j v ((i, w) ∷ m) n = elim (Bool-cases (str_eq i k)) [
    | inl q ↦ rw q (let p = (eq_iff i k).0 q in ground (arith, eq_iff i j))
    | inr q ↦ rw q (ap (λ o. if str_eq i j then some w else o) (lookup-insert k j v m n))
  ]

  pub lookup-insert_same :
      (k : String) (v : V) (m : List (String × V)) → lookup k (insert k v m) ≡ some v
  unfolding lookup insert
  lookup-insert_same k v [] = rw ((eq_iff k k).1 refl) refl
  lookup-insert_same k v ((j, w) ∷ m) = elim (Bool-cases (str_eq j k)) [
    | inl q ↦ rw (q, q) refl
    | inr q ↦ rw (q, q) (lookup-insert_same k v m)
  ]

  -- No key stands twice.
  abbrev pub DistinctKeys : List (String × V) → Type 0
  DistinctKeys [] = Unit
  DistinctKeys ((k, v) ∷ m) = (lookup k m ≡ none) × DistinctKeys m

  pub insert-DistinctKeys :
      (k : String) (v : V) (m : List (String × V)) → DistinctKeys m → DistinctKeys (insert k v m)
  unfolding insert lookup
  insert-DistinctKeys k v [] d = (refl, tt)
  insert-DistinctKeys k v ((j, w) ∷ m) d = elim (Bool-cases (str_eq j k)) [
    | inl q ↦ rw q d
    | inr q ↦
        rw q
          (lookup-insert k j v m (λ p. cc ((eq_iff j k).1 p)) ∙ d.0, insert-DistinctKeys k v m d.1)
  ]

  -- A key that is not in a map is none of its keys.
  pub other_keys :
      (k : String) (m : List (String × V)) → lookup k m ≡ none → All (λ (j, v). j ≢ k) m
  unfolding lookup
  other_keys k [] e = tt
  other_keys k ((j, v) ∷ m) e = elim (Bool-cases (str_eq j k)) [
    | inl q ↦ cc
    | inr q ↦ (λ p. cc ((eq_iff j k).1 p), other_keys k m (ground arith))
  ]

  pub lookup-insert_if :
      (k j : String) (v : V) (m : List (String × V))
      → lookup j (insert k v m) ≡ (if str_eq k j then some v else lookup j m)
  lookup-insert_if k j v m = elim (Bool-cases (str_eq k j)) [
    | inl q ↦
        rw q (ap (λ i. lookup i (insert k v m)) (sym ((eq_iff k j).0 q)) ∙ lookup-insert_same k v m)
    | inr q ↦ rw q (lookup-insert k j v m (λ p. cc ((eq_iff k j).1 (sym p))))
  ]
