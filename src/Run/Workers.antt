-- ===== src/Run/Workers.antt =====
-- `runTaskGroup` of pkg/eval/runner.go: a goroutine for each task, a semaphore of `workerLimit` slots and
-- a mutex around the results. The goroutines move in any order, an access to what they share at a time.
use mcpchecker.Prelude.{
  inl, inr, zero, ◌*◌, ◌⊎◌, All-append, ap, append-nil, append_assoc, length-append, refl, sym, ◌∙◌,
  ℕ, All, Bool, List, [], arith, if◌then◌else◌, length, suc, ◌++◌, ◌+◌, ◌<◌, ◌∷◌, ◌≡◌, ◌≤◌,
}
use mcpchecker.Run.{EvalResult, EvalTask}

-- Where the goroutines stand: before the semaphore; in `executeTask`; with the results appended and the
-- slot still held; at their end. `done` also keeps each task's results.
pub record Pool : Type 0 where
  pub waiting : List EvalTask
  pub running : List EvalTask
  pub holding : ℕ
  pub ended : ℕ
  pub appended : List (EvalTask × List EvalResult)
  pub all_results : List EvalResult

unfoldable pub start_pool : List EvalTask → Pool
start_pool tasks = record {
  waiting = tasks;
  running = [];
  holding = 0;
  ended = 0;
  appended = [];
  all_results = [];
}

-- `executeTask` may return what it does for the task at that time.
pub data Move (limit : ℕ) (returns : EvalTask → List EvalResult → Type 0) (s : Pool)
    : Pool → Type 0 where
  acquire :
      (tc : EvalTask) (before after : List EvalTask)
      → s.waiting ≡ before ++ tc ∷ after
      → length s.running + s.holding < limit
      → Move limit returns s (record s { waiting = before ++ after; running = tc ∷ s.running })
  append_results :
      (tc : EvalTask) (before after : List EvalTask) (results : List EvalResult)
      → s.running ≡ before ++ tc ∷ after
      → returns tc results
      → Move limit returns s (record s {
        running = before ++ after;
        holding = suc s.holding;
        appended = s.appended ++ (tc, results) ∷ [];
        all_results = s.all_results ++ results;
      })
  release :
      (n : ℕ)
      → s.holding ≡ suc n
      → Move limit returns s (record s { holding = n; ended = suc s.ended })

pub data Reach (limit : ℕ) (returns : EvalTask → List EvalResult → Type 0) (tasks : List EvalTask)
    : Pool → Type 0 where
  start : Reach limit returns tasks (start_pool tasks)
  later :
      {s t : Pool}
      → Reach limit returns tasks s
      → Move limit returns s t
      → Reach limit returns tasks t

-- How many tasks pass a test.
abbrev pub count : (EvalTask → Bool) → List EvalTask → ℕ
count p [] = 0
count p (tc ∷ tasks) = (if p tc then 1 else 0) + count p tasks

count-append :
    (p : EvalTask → Bool) (xs ys : List EvalTask) → count p (xs ++ ys) ≡ count p xs + count p ys
count-append p [] ys = omega arith
count-append p (x ∷ xs) ys = omega (arith, count-append p xs ys)

abbrev pub tasks_of : List (EvalTask × List EvalResult) → List EvalTask
tasks_of [] = []
tasks_of ((tc, results) ∷ rest) = tc ∷ tasks_of rest

abbrev pub results_of : List (EvalTask × List EvalResult) → List EvalResult
results_of [] = []
results_of ((tc, results) ∷ rest) = results ++ results_of rest

tasks_of-snoc :
    (xs : List (EvalTask × List EvalResult)) (tc : EvalTask) (results : List EvalResult)
    → tasks_of (xs ++ (tc, results) ∷ []) ≡ tasks_of xs ++ tc ∷ []
tasks_of-snoc [] tc results = refl
tasks_of-snoc ((t, rs) ∷ xs) tc results = ap (λ l. t ∷ l) (tasks_of-snoc xs tc results)

results_of-snoc :
    (xs : List (EvalTask × List EvalResult)) (tc : EvalTask) (results : List EvalResult)
    → results_of (xs ++ (tc, results) ∷ []) ≡ results_of xs ++ results
results_of-snoc [] tc results = append-nil results
results_of-snoc ((t, rs) ∷ xs) tc results =
    ap (λ l. rs ++ l) (results_of-snoc xs tc results)
    ∙ sym (append_assoc rs (results_of xs) results)

-- What holds of every pool that is reached.
pub record Sound (limit : ℕ) (returns : EvalTask → List EvalResult → Type 0) (tasks : List EvalTask)
    (s : Pool) : Type 0 where
  pub bounded : length s.running + s.holding ≤ limit
  pub once :
      (p : EvalTask → Bool)
      → count p s.waiting + count p s.running + count p (tasks_of s.appended) ≡ count p tasks
  pub held : s.holding + s.ended ≡ length s.appended
  pub gathered : s.all_results ≡ results_of s.appended
  pub returned : All (λ (tc, results). returns tc results) s.appended

module _ (limit : ℕ) (returns : EvalTask → List EvalResult → Type 0) (tasks : List EvalTask) where
  Move-Sound :
      {s t : Pool}
      → Sound limit returns tasks s
      → Move limit returns s t
      → Sound limit returns tasks t
  Move-Sound {s} h (acquire tc before after e lt) = record {
    bounded = omega (arith, lt);
    once = λ p. omega (
      arith,
      h.once p,
      ap (count p) e,
      count-append p before (tc ∷ after),
      count-append p before after,
    );
    held = h.held;
    gathered = h.gathered;
    returned = h.returned;
  }
  Move-Sound {s} h (append_results tc before after results e r) = record {
    bounded = omega (
      arith,
      h.bounded,
      ap length e,
      length-append before (tc ∷ after),
      length-append before after,
    );
    once = λ p. omega (
      arith,
      h.once p,
      ap (count p) e,
      count-append p before (tc ∷ after),
      count-append p before after,
      ap (count p) (tasks_of-snoc s.appended tc results),
      count-append p (tasks_of s.appended) (tc ∷ []),
    );
    held = omega (arith, h.held, length-append s.appended ((tc, results) ∷ []));
    gathered = ap (λ l. l ++ results) h.gathered ∙ sym (results_of-snoc s.appended tc results);
    returned =
        All-append (λ (t, rs). returns t rs) s.appended ((tc, results) ∷ []) h.returned (r, tt);
  }
  Move-Sound {s} h (release n e) = record {
    bounded = omega (arith, h.bounded, e);
    once = h.once;
    held = omega (arith, h.held, e);
    gathered = h.gathered;
    returned = h.returned;
  }

  pub Reach-Sound : {s : Pool} → Reach limit returns tasks s → Sound limit returns tasks s
  unfolding start_pool
  Reach-Sound start = record {
    bounded = omega arith;
    once = λ p. omega arith;
    held = refl;
    gathered = refl;
    returned = tt;
  }
  Reach-Sound (later r m) = Move-Sound (Reach-Sound r) m

  -- As many tasks are at work at a time as the limit allows, whatever the order in which they move.
  pub run_task_group_bounded :
      {s : Pool} → Reach limit returns tasks s → length s.running + s.holding ≤ limit
  run_task_group_bounded r = (Reach-Sound r).bounded

List-cases : {A : Type 0} (xs : List A) → (xs ≡ []) ⊎ ((x : A) × (rest : List A) × (xs ≡ x ∷ rest))
List-cases [] = inl refl
List-cases (x ∷ xs) = inr (x, xs, refl)

ℕ-cases : (n : ℕ) → (n ≡ 0) ⊎ ((m : ℕ) × (n ≡ suc m))
ℕ-cases zero = inl refl
ℕ-cases (suc m) = inr (m, refl)

-- The moves that are left.
abbrev pub work : Pool → ℕ
work s = 3 * length s.waiting + 2 * length s.running + s.holding

-- Every goroutine has ended, and the results of each task were gathered once.
pub record Finished (returns : EvalTask → List EvalResult → Type 0) (tasks : List EvalTask)
    (s : Pool) : Type 0 where
  pub empty : work s ≡ 0
  pub once : (p : EvalTask → Bool) → count p (tasks_of s.appended) ≡ count p tasks
  pub gathered : s.all_results ≡ results_of s.appended
  pub returned : All (λ (tc, results). returns tc results) s.appended

Move-work :
    {limit : ℕ} {returns : EvalTask → List EvalResult → Type 0} {s t : Pool}
    → Move limit returns s t
    → work s ≡ suc (work t)
Move-work (acquire tc before after e lt) =
    omega (arith, ap length e, length-append before (tc ∷ after), length-append before after)
Move-work (append_results tc before after results e r) =
    omega (arith, ap length e, length-append before (tc ∷ after), length-append before after)
Move-work (release n e) = omega (arith, e)

-- If there is a slot and `executeTask` returns for every task, then from every pool that is reached
-- either all goroutines have ended, and then the results of each task were gathered exactly once, or
-- some goroutine can move; and every move leaves one less, so that the group ends.
pub run_task_group_ends :
    (limit : ℕ) (returns : EvalTask → List EvalResult → Type 0) (tasks : List EvalTask) (s : Pool)
    → 0 < limit
    → ((tc : EvalTask) → (results : List EvalResult) × returns tc results)
    → Reach limit returns tasks s
    → (Finished returns tasks s ⊎ ((t : Pool) × Move limit returns s t))
      × ((t : Pool) → Move limit returns s t → work s ≡ suc (work t))
run_task_group_ends limit returns tasks s lt total r =
    (next_move s (Reach-Sound limit returns tasks r), λ t m. Move-work m)
  where
    next_move :
        (s : Pool)
        → Sound limit returns tasks s
        → Finished returns tasks s ⊎ ((t : Pool) × Move limit returns s t)
    next_move s h = elim (List-cases s.running) [
      | inr (tc, rest, e) ↦ inr (_, append_results tc [] rest (total tc).0 e (total tc).1)
      | inl e ↦ elim (ℕ-cases s.holding) [
        | inr (n, f) ↦ inr (_, release n f)
        | inl f ↦ elim (List-cases s.waiting) [
          | inr (tc, rest, g) ↦ inr (_, acquire tc [] rest g (omega (arith, ap length e, f, lt)))
          | inl g ↦ inl (record {
            empty = omega (arith, ap length e, f, ap length g);
            once = λ p. omega (arith, h.once p, ap (count p) e, ap (count p) g);
            gathered = h.gathered;
            returned = h.returned;
          })
        ]
      ]
    ]
