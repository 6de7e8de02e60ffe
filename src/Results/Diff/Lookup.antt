-- ===== src/Results/Diff/Lookup.antt =====
-- The maps by task name of `calculateDiff` of pkg/cli/diff.go, and what the diffs say of a name.
use mcpchecker.Run.{EvalResult}
use mcpchecker.Prelude.Assoc.{insert, lookup, lookup-insert, lookup-insert_same}
use mathlib.Core.Path.{subst}
use mcpchecker.Prelude.{
  Any, Bool, Bool-cases, List, Option, Option-cases, String, [], eq_iff, if◌then◌else◌, inl, inr,
  none, refl, some, str_eq, sym, ◌∙◌, ◌∷◌, ◌≡◌,
}
use mcpchecker.Results.Diff.{TaskDiff, by_name, passed, by_name_loop}

-- The last result of a name.
abbrev pub last_named : String → List EvalResult → Option EvalResult
last_named n [] = none
last_named n (r ∷ rs) = elim (last_named n rs) [
  | some x ↦ some x
  | none ↦ if str_eq r.task_name n then some r else none
]

lookup-by_name_loop :
    (n : String) (rs : List EvalResult) (m : List (String × EvalResult))
    → lookup n (by_name_loop rs m)
      ≡ elim (last_named n rs) as (λ _. Option EvalResult) [ some x ↦ some x | none ↦ lookup n m ]
unfolding by_name_loop
lookup-by_name_loop n [] m = refl
lookup-by_name_loop n (r ∷ rs) m =
    lookup-by_name_loop n rs (insert r.task_name r m) ∙ elim (Option-cases (last_named n rs)) [
      | inr (x, e) ↦ rw e refl
      | inl e ↦ rw e (elim (Bool-cases (str_eq r.task_name n)) [
        | inl q ↦
            let p : r.task_name ≡ n = (eq_iff r.task_name n).0 q in
            rw q (
              subst (λ k. lookup k (insert r.task_name r m) ≡ some r) p
                (lookup-insert_same r.task_name r m))
        | inr q ↦
            rw q (lookup-insert r.task_name n r m (λ p. cc ((eq_iff r.task_name n).1 (sym p))))
      ])
    ]

pub lookup-by_name : (n : String) (rs : List EvalResult) → lookup n (by_name rs) ≡ last_named n rs
unfolding by_name lookup
lookup-by_name n rs =
    lookup-by_name_loop n rs []
    ∙ elim (Option-cases (last_named n rs)) [ inl e ↦ rw e refl | inr (x, e) ↦ rw e refl ]

-- A list has a diff of this name.
abbrev pub Named : String → List TaskDiff → Type 0
Named n ds = Any (λ d. d.task_name ≡ n) ds

-- A current result of this name, which passed or not, where the base result passed or not.
abbrev pub Changed : Option EvalResult → Bool → Bool → String → EvalResult → Type 0
Changed o before after n c =
    (c.task_name ≡ n) × (passed c ≡ after) × ((b : EvalResult) × (o ≡ some b) × (passed b ≡ before))
