-- ===== src/Results/Diff/Names.antt =====
-- Which task names `calculateDiff` of pkg/cli/diff.go lists where.
use mcpchecker.Run.{EvalResult}
use mathlib.Core.Path.{subst}
use mcpchecker.Prelude.Assoc.{lookup}
use mcpchecker.Results.Diff.Lookup.{Changed, Named, last_named, lookup-by_name}
use mcpchecker.Results.Diff.Steps.{
  base_keeps, current_keeps, improvement_step, new_step, regression_step, removed_step,
}
use mcpchecker.Results.{calculate_stats}
use mcpchecker.Prelude.{
  ℕ, Any, List, String, [], false, inl, inr, none, refl, sym, true, ◌||◌, ◌↔◌, ◌∙◌, ◌∷◌, ◌≡◌, ◌⊎◌,
}
use mcpchecker.Results.Diff.{
  compare_current, remove_base, DiffResult, TaskDiff, by_name, calculate_diff, has_token_errors,
  current_loop, base_loop,
}

module _ {Float : Type 0} (n : String) (m : List (String × EvalResult))
    (get : DiffResult Float → List TaskDiff) (Q : EvalResult → Type 0) where
  current_loop_iff :
      ((c : EvalResult) (diff : DiffResult Float)
        → Named n (get (compare_current (lookup c.task_name m) c diff))
          ↔ (Named n (get diff) ⊎ Q c))
      → (cs : List EvalResult) (diff : DiffResult Float)
      → Named n (get (current_loop m cs diff)) ↔ (Named n (get diff) ⊎ Any Q cs)
  unfolding current_loop
  current_loop_iff step [] diff = (inl, elim [ inl h ↦ h | inr h ↦ absurd h ])
  current_loop_iff step (c ∷ cs) diff =
      let (f, g) = step c diff in
      let (f', g') = current_loop_iff step cs (compare_current (lookup c.task_name m) c diff) in
      (
        λ h. elim (f' h) [
          | inl y ↦ elim (f y) [ inl z ↦ inl z | inr z ↦ inr (inl z) ]
          | inr y ↦ inr (inr y)
        ],
        elim [
          | inl y ↦ g' (inl (g (inl y)))
          | inr y ↦ elim y [ inl z ↦ g' (inl (g (inr z))) | inr z ↦ g' (inr z) ]
        ],
      )

  base_loop_iff :
      ((b : EvalResult) (diff : DiffResult Float)
        → Named n (get (remove_base (lookup b.task_name m) b diff)) ↔ (Named n (get diff) ⊎ Q b))
      → (bs : List EvalResult) (diff : DiffResult Float)
      → Named n (get (base_loop m bs diff)) ↔ (Named n (get diff) ⊎ Any Q bs)
  unfolding base_loop
  base_loop_iff step [] diff = (inl, elim [ inl h ↦ h | inr h ↦ absurd h ])
  base_loop_iff step (c ∷ cs) diff =
      let (f, g) = step c diff in
      let (f', g') = base_loop_iff step cs (remove_base (lookup c.task_name m) c diff) in
      (
        λ h. elim (f' h) [
          | inl y ↦ elim (f y) [ inl z ↦ inl z | inr z ↦ inr (inl z) ]
          | inr y ↦ inr (inr y)
        ],
        elim [
          | inl y ↦ g' (inl (g (inl y)))
          | inr y ↦ elim y [ inl z ↦ g' (inl (g (inr z))) | inr z ↦ g' (inr z) ]
        ],
      )

module _ {Float : Type 0} (m : List (String × EvalResult)) where
  current_loop_keeps :
      (cs : List EvalResult) (diff : DiffResult Float)
      → (current_loop m cs diff).removed ≡ diff.removed
  unfolding current_loop
  current_loop_keeps [] diff = refl
  current_loop_keeps (c ∷ cs) diff =
      current_loop_keeps cs (compare_current (lookup c.task_name m) c diff)
      ∙ current_keeps "" c diff (lookup c.task_name m)

  base_loop_keeps :
      (bs : List EvalResult) (diff : DiffResult Float)
      → ((base_loop m bs diff).regressions ≡ diff.regressions)
        × ((base_loop m bs diff).improvements ≡ diff.improvements)
        × ((base_loop m bs diff).new ≡ diff.new)
  unfolding base_loop
  base_loop_keeps [] diff = (refl, refl, refl)
  base_loop_keeps (b ∷ bs) diff =
      let (x, y, z) = base_loop_keeps bs (remove_base (lookup b.task_name m) b diff) in
      let (u, v, w) = base_keeps "" b diff (lookup b.task_name m) in (x ∙ u, y ∙ v, z ∙ w)

-- A list of diffs that starts empty.
from_none :
    (n : String) {P Q : Type 0} (ds : List TaskDiff) → ds ≡ [] → P ↔ (Named n ds ⊎ Q) → P ↔ Q
from_none n ds e f =
    (λ p. elim (f.0 p) [ inl h ↦ absurd (subst (Named n) e h) | inr h ↦ h ], λ q. f.1 (inr q))

base_of :
    (base : List EvalResult) (c : EvalResult)
    → lookup c.task_name (by_name base) ≡ last_named c.task_name base
base_of base c = lookup-by_name c.task_name base

module _ {Float : Type 0} (base current : List EvalResult) (n : String) where
  -- The three lists that the loop over the current results fills.
  current_names :
      (start : DiffResult Float)
      → start.regressions ≡ []
      → start.improvements ≡ []
      → start.new ≡ []
      → let diff = current_loop (by_name base) current start in
        (Named n diff.regressions
          ↔ Any (λ c. Changed (last_named c.task_name base) true false n c) current)
        × (Named n diff.improvements
            ↔ Any (λ c. Changed (last_named c.task_name base) false true n c) current)
        × (Named n diff.new
            ↔ Any (λ c. (c.task_name ≡ n) × (last_named c.task_name base ≡ none)) current)
  current_names start p q r = (
    from_none n start.regressions p (
        current_loop_iff n (by_name base) (λ d. d.regressions)
          (λ c. Changed (last_named c.task_name base) true false n c)
          (λ c diff.
            rw (sym (base_of base c))
              (regression_step n c diff (lookup c.task_name (by_name base))))
          current start),
    from_none n start.improvements q (
        current_loop_iff n (by_name base) (λ d. d.improvements)
          (λ c. Changed (last_named c.task_name base) false true n c)
          (λ c diff.
            rw (sym (base_of base c))
              (improvement_step n c diff (lookup c.task_name (by_name base))))
          current start),
    from_none n start.new r (
        current_loop_iff n (by_name base) (λ d. d.new)
          (λ c. (c.task_name ≡ n) × (last_named c.task_name base ≡ none))
          (λ c diff.
            rw (sym (base_of base c)) (new_step n c diff (lookup c.task_name (by_name base))))
          current start),
  )

  -- The list that the loop over the base results fills.
  removed_names :
      (start : DiffResult Float)
      → start.removed ≡ []
      → Named n (base_loop (by_name base) current start).removed
        ↔ Any (λ b. (b.task_name ≡ n) × (last_named b.task_name base ≡ none)) current
  removed_names start p = from_none n start.removed p (
      base_loop_iff n (by_name base) (λ d. d.removed)
        (λ b. (b.task_name ≡ n) × (last_named b.task_name base ≡ none))
        (λ b diff.
          rw (sym (base_of base b)) (removed_step n b diff (lookup b.task_name (by_name base))))
        current start)

-- The diff of two runs, name by name: a regression is a task with a current result that did not pass,
-- where the last base result of its name did; an improvement is the reverse; a new task has no base
-- result of its name, and a removed one no current result.
pub calculate_diff_names :
    {Float : Type 0} (divide : ℕ → ℕ → Float) (zero_float : Float) (base_file current_file : String)
    (base current : List EvalResult) (n : String)
    → let diff = calculate_diff divide zero_float base_file current_file base current in
      (Named n diff.regressions
        ↔ Any (λ c. Changed (last_named c.task_name base) true false n c) current)
      × (Named n diff.improvements
          ↔ Any (λ c. Changed (last_named c.task_name base) false true n c) current)
      × (Named n diff.new
          ↔ Any (λ c. (c.task_name ≡ n) × (last_named c.task_name base ≡ none)) current)
      × (Named n diff.removed
          ↔ Any (λ b. (b.task_name ≡ n) × (last_named b.task_name current ≡ none)) base)
unfolding calculate_diff
calculate_diff_names divide zero_float base_file current_file base current n =
    let start : DiffResult _ = record {
      base_stats = calculate_stats divide zero_float base_file base;
      head_stats = calculate_stats divide zero_float current_file current;
      regressions = [];
      improvements = [];
      new = [];
      removed = [];
      token_data_incomplete = has_token_errors base || has_token_errors current;
    } in
    let after = current_loop (by_name base) current start in
    let (x, y, z) = base_loop_keeps (by_name current) base after in
    let (a, b, c) = current_names base current n start refl refl refl in
    (
      rw x a,
      rw y b,
      rw z c,
      removed_names current base n after (current_loop_keeps (by_name base) current start),
    )
