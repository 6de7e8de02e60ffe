-- ===== src/Label/Carries.antt =====
-- `matchesLabelSelector` of pkg/eval/label_selector.go as a statement, and the laws of the maps.
use mcpchecker.Prelude.Assoc.{insert, lookup}
use mcpchecker.Prelude.{
  All, Bool-cases, Option-cases, String, [], ap, arith, eq_iff, inl, inr, none, refl, some, str_eq,
  true, ◌↔◌, ◌∷◌, ◌≡◌,
}
use mcpchecker.Label.{Labels, matches_label_selector, matches_loop}

-- The task has every label of the selector, with its value.
abbrev pub Carries : Labels → Labels → Type 0
Carries task selector = All (λ (k, v). lookup k task ≡ some v) selector

matches_loop_iff :
    (task selector : Labels) → (matches_loop task selector ≡ true) ↔ Carries task selector
unfolding matches_loop
matches_loop_iff task [] = (λ _. tt, λ _. refl)
matches_loop_iff task ((k, v) ∷ s) = elim (Option-cases (lookup k task)) [
  | inl e ↦ rw (e, matches_loop) (λ h. cc, λ h. cc)
  | inr (w, e) ↦ elim (Bool-cases (str_eq w v)) [
    | inl q ↦
        rw (e, matches_loop, q)
          (
            λ h. (ap some ((eq_iff w v).0 q), (matches_loop_iff task s).0 h),
            λ h. (matches_loop_iff task s).1 h.1,
          )
    | inr q ↦ rw (e, matches_loop, q) (λ h. cc, λ h. let p : w ≡ v = cc in cc ((eq_iff w v).1 p))
  ]
]

-- A selector matches the labels of a task exactly when the task has every label of the selector, with
-- its value.
pub matches_label_selector_iff :
    (task selector : Labels) → (matches_label_selector task selector ≡ true) ↔ Carries task selector
unfolding matches_label_selector
matches_label_selector_iff task [] = (λ _. tt, λ _. refl)
matches_label_selector_iff task (kv ∷ s) = matches_loop_iff task (kv ∷ s)

-- A label that the selector sets is the task's.
pub Carries-lookup :
    (task selector : Labels) (k : String) {v : String}
    → Carries task selector
    → lookup k selector ≡ some v
    → lookup k task ≡ some v
unfolding lookup
Carries-lookup task [] k c e = cc
Carries-lookup task ((j, w) ∷ s) k {v} c e = elim (Bool-cases (str_eq j k)) [
  | inl q ↦ let same : w ≡ v = ground arith in cc ((eq_iff j k).0 q, c.0, same)
  | inr q ↦ Carries-lookup task s k {v = v} c.1 (ground arith)
]

-- One more label that the selector did not set.
pub Carries-insert :
    (task selector : Labels) (k v : String)
    → lookup k selector ≡ none
    → Carries task (insert k v selector) ↔ (Carries task selector × (lookup k task ≡ some v))
unfolding lookup insert
Carries-insert task [] k v e = (λ c. (tt, c.0), λ c. (c.1, tt))
Carries-insert task ((j, w) ∷ s) k v e = elim (Bool-cases (str_eq j k)) [
  | inl q ↦ cc
  | inr q ↦
      let (f, g) = Carries-insert task s k v (ground arith) in
      rw (insert, q) (λ c. ((c.0, (f c.1).0), (f c.1).1), λ c. (c.0.0, g (c.0.1, c.1)))
]
