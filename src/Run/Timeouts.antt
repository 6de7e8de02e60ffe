-- ===== src/Run/Timeouts.antt =====
-- The timeouts of a task: pkg/util/limits.go and their precedence in pkg/eval/runner.go. What
-- `time.ParseDuration` and `%q` make of a string are parameters; a duration is a number of nanoseconds.
use mcpchecker.Task.{Limits}
use mcpchecker.Prelude.Int.{ltb_ℤ, pos, ℤ}
use mcpchecker.Prelude.{
  ap, ◌∙◌, Bool, Bool-cases, List, Option, String, [], concat, false, if◌then◌else◌, inl, inr, none,
  not, refl, some, str_eq, true, ◌||◌, ◌∷◌, ◌≡◌,
}
use mcpchecker.Prelude.Result.{Result, Result-cases, err, ok}
use mcpchecker.Run.{EvalTask, EvalRunner}

pub record Durations : Type 0 where
  pub parse_duration : String → Result ℤ
  pub show_duration : ℤ → String
  pub quote : String → String

-- The field of a limit: the error of a duration that is not positive names `Timeout` for both fields.
unfoldable pub get_limit : Durations → String → String → String → Result (Option ℤ)
get_limit d name field timeout =
    if str_eq field "" then ok none else elim (d.parse_duration field) [
      | err e ↦ err (concat ("invalid " ∷ name ∷ " " ∷ d.quote field ∷ ": " ∷ e ∷ []))
      | ok n ↦
          if ltb_ℤ (pos 0) n
          then ok (some n)
          else err (
              concat ("invalid timeout: timeout duration must be > 0, got " ∷ d.quote timeout ∷ []))
    ]

unfoldable pub get_timeout : Durations → Option Limits → Result (Option ℤ)
unfolding get_limit
get_timeout d none = ok none
get_timeout d (some l) = get_limit d "timeout" l.timeout l.timeout

unfoldable pub get_cleanup_timeout : Durations → Option Limits → Result (Option ℤ)
unfolding get_limit
get_cleanup_timeout d none = ok none
get_cleanup_timeout d (some l) = get_limit d "cleanupTimeout" l.cleanup_timeout l.timeout

-- A flag of the command line.
unfoldable pub flag : Durations → String → String → Result (Option ℤ)
flag d name value = elim (d.parse_duration value) [
  | err e ↦ err (concat ("invalid " ∷ name ∷ " " ∷ d.quote value ∷ ": " ∷ e ∷ []))
  | ok n ↦ ok (some n)
]

-- `if err != nil { return err }; if ok { return d }`, and what follows.
unfoldable pub or_next : Result (Option ℤ) → Result (Option ℤ) → Result (Option ℤ)
or_next (err e) rest = err e
or_next (ok (some n)) rest = ok (some n)
or_next (ok none) rest = rest

unfoldable pub resolve_task_timeout : Durations → EvalRunner → EvalTask → Result (Option ℤ)
unfolding flag or_next get_timeout
resolve_task_timeout d r tc =
    if not (str_eq r.task_timeout "")
    then flag d "--task-timeout" r.task_timeout
    else or_next (get_timeout d tc.spec.spec.limits) (
        if not (str_eq r.default_task_timeout "")
        then flag d "--default-task-timeout" r.default_task_timeout
        else or_next (get_timeout d r.spec.config.default_task_limits) (ok none))

unfoldable pub resolve_cleanup_timeout : Durations → EvalRunner → EvalTask → Result (Option ℤ)
unfolding flag or_next get_cleanup_timeout
resolve_cleanup_timeout d r tc =
    if not (str_eq r.cleanup_timeout "")
    then flag d "--cleanup-timeout" r.cleanup_timeout
    else or_next (get_cleanup_timeout d tc.spec.spec.limits) (
        if not (str_eq r.default_cleanup_timeout "")
        then flag d "--default-cleanup-timeout" r.default_cleanup_timeout
        else or_next (get_cleanup_timeout d r.spec.config.default_task_limits) (ok none))

-- The sources of a timeout, by precedence: each is a string, and whether it must be positive.
pub record Source : Type 0 where
  pub value : String
  pub is_limit : Bool

abbrev limit_of : (Limits → String) → Option Limits → String
limit_of get none = ""
limit_of get (some l) = get l

abbrev pub task_sources : EvalRunner → EvalTask → List Source
task_sources r tc =
    record { value = r.task_timeout; is_limit = false }
    ∷ record { value = limit_of (λ l. l.timeout) tc.spec.spec.limits; is_limit = true }
    ∷ record { value = r.default_task_timeout; is_limit = false }
    ∷ record {
      value = limit_of (λ l. l.timeout) r.spec.config.default_task_limits;
      is_limit = true;
    }
    ∷ []

abbrev pub cleanup_sources : EvalRunner → EvalTask → List Source
cleanup_sources r tc =
    record { value = r.cleanup_timeout; is_limit = false }
    ∷ record { value = limit_of (λ l. l.cleanup_timeout) tc.spec.spec.limits; is_limit = true }
    ∷ record { value = r.default_cleanup_timeout; is_limit = false }
    ∷ record {
      value = limit_of (λ l. l.cleanup_timeout) r.spec.config.default_task_limits;
      is_limit = true;
    }
    ∷ []

-- What the first source that is set says: nothing, if none is; else its duration, if it has one.
abbrev allowed : Bool → Option ℤ → Option (Option ℤ)
allowed is_limit none = none
allowed is_limit (some n) = if not is_limit || ltb_ℤ (pos 0) n then some (some n) else none

abbrev duration : Result ℤ → Option ℤ
duration (ok n) = some n
duration (err e) = none

abbrev pub first_source : Durations → List Source → Option (Option ℤ)
first_source d [] = some none
first_source d (s ∷ ss) =
    let rest = first_source d ss in
    if str_eq s.value "" then rest else allowed s.is_limit (duration (d.parse_duration s.value))

abbrev pub answer : Result (Option ℤ) → Option (Option ℤ)
answer (ok o) = some o
answer (err e) = none

answer-flag :
    (d : Durations) (name value : String)
    → answer (flag d name value) ≡ allowed false (duration (d.parse_duration value))
unfolding flag
answer-flag d name value = elim (Result-cases (d.parse_duration value)) [
  | inl (x, e) ↦ rw (flag, e) refl
  | inr (n, e) ↦ rw (flag, e) refl
]

limit_answer :
    (d : Durations) (name value other : String) (rest : Result (Option ℤ))
    → answer (or_next (get_limit d name value other) rest)
      ≡ (if str_eq value "" then answer rest else allowed true (duration (d.parse_duration value)))
unfolding get_limit or_next
limit_answer d name value other rest = elim (Bool-cases (str_eq value "")) [
  | inl q ↦ rw (get_limit, q) refl
  | inr q ↦ elim (Result-cases (d.parse_duration value)) [
    | inl (x, e) ↦ rw (get_limit, q, e) refl
    | inr (n, e) ↦
        rw (get_limit, q, e)
          (elim (Bool-cases (ltb_ℤ (pos 0) n)) [ inl p ↦ rw p refl | inr p ↦ rw p refl ])
  ]
]

task_limit :
    (d : Durations) (o : Option Limits) (rest : Result (Option ℤ)) (next : Option (Option ℤ))
    → answer rest ≡ next
    → answer (or_next (get_timeout d o) rest) ≡ (
        if str_eq (limit_of (λ l. l.timeout) o) ""
        then next
        else allowed true (duration (d.parse_duration (limit_of (λ l. l.timeout) o))))
unfolding get_timeout or_next
task_limit d none rest next e = e
task_limit d (some l) rest next e =
    limit_answer d "timeout" l.timeout l.timeout rest
    ∙ ap
        (λ o.
          if str_eq l.timeout "" then o else allowed true (duration (d.parse_duration l.timeout)))
        e

cleanup_limit :
    (d : Durations) (o : Option Limits) (rest : Result (Option ℤ)) (next : Option (Option ℤ))
    → answer rest ≡ next
    → answer (or_next (get_cleanup_timeout d o) rest) ≡ (
        if str_eq (limit_of (λ l. l.cleanup_timeout) o) ""
        then next
        else allowed true (duration (d.parse_duration (limit_of (λ l. l.cleanup_timeout) o))))
unfolding get_cleanup_timeout or_next
cleanup_limit d none rest next e = e
cleanup_limit d (some l) rest next e =
    limit_answer d "cleanupTimeout" l.cleanup_timeout l.timeout rest
    ∙ ap
        (λ o.
          if str_eq l.cleanup_timeout ""
          then o
          else allowed true (duration (d.parse_duration l.cleanup_timeout)))
        e

flag_or :
    (d : Durations) (name value : String) (rest : Result (Option ℤ)) (next : Option (Option ℤ))
    → answer rest ≡ next
    → answer (if not (str_eq value "") then flag d name value else rest)
      ≡ (if str_eq value "" then next else allowed false (duration (d.parse_duration value)))
flag_or d name value rest next e = elim (Bool-cases (str_eq value "")) [
  | inl q ↦ rw q e
  | inr q ↦ rw q (answer-flag d name value)
]

-- A task's timeout and its cleanup's are each that of the first source that is set, in the order: the
-- flag for all tasks, the task's own limit, the flag for a default, the evaluation's default limit. It
-- is an error if that source does not parse, or if it is a limit that is not positive; whatever the
-- sources after it say, they do not matter, and with none set there is no timeout.
pub resolve_timeout_first :
    (d : Durations) (r : EvalRunner) (tc : EvalTask)
    → (answer (resolve_task_timeout d r tc) ≡ first_source d (task_sources r tc))
      × (answer (resolve_cleanup_timeout d r tc) ≡ first_source d (cleanup_sources r tc))
unfolding resolve_task_timeout resolve_cleanup_timeout
resolve_timeout_first d r tc =
    let limits = tc.spec.spec.limits in
    let task_last = or_next (get_timeout d r.spec.config.default_task_limits) (ok none) in
    let cleanup_last =
      or_next (get_cleanup_timeout d r.spec.config.default_task_limits) (ok none) in
    let task_default =
      flag_or d "--default-task-timeout" r.default_task_timeout task_last _
        (task_limit d r.spec.config.default_task_limits (ok none) _ refl) in
    let cleanup_default =
      flag_or d "--default-cleanup-timeout" r.default_cleanup_timeout cleanup_last _
        (cleanup_limit d r.spec.config.default_task_limits (ok none) _ refl) in
    (
      flag_or d "--task-timeout" r.task_timeout _ _ (task_limit d limits _ _ task_default),
      flag_or d "--cleanup-timeout" r.cleanup_timeout _ _
          (cleanup_limit d limits _ _ cleanup_default),
    )
