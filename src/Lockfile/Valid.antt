-- ===== src/Lockfile/Valid.antt =====
-- What pkg/lockfile/lockfile.go asks of a lockfile, and that one that is written is read back.
use mcpchecker.Prelude.Result.{Result-cases, ok}
use mcpchecker.Config.Succeeds.{str_eq-cases}
use mcpchecker.Prelude.Int.{negsuc, pos, ℤ}
use mcpchecker.Prelude.{
  ℕ, All, Bool, Bool-cases, List, Option, Option-cases, String, [], arith, false, if◌then◌else◌,
  inl, inr, none, not, refl, some, str_eq, true, ◌==◌, ◌↔◌, ◌∷◌, ◌≡◌, ◌≢◌,
}
use mcpchecker.Lockfile.{
  Library, ExtensionLock, Lockfile, SourceLock, first_error, is_current, matches_commit,
  matches_hash, read_lockfile, validate_extension_lock, validate_lockfile, validate_source_lock,
  write_lockfile,
}

abbrev pub IsSourceLock : SourceLock → Type 0
IsSourceLock s =
    (s.repo ≢ "")
    × (s.ref ≢ "")
    × (matches_commit s.commit ≡ true)
    × (matches_hash s.hash ≡ true)
    × (s.fetched_at ≢ 0)

abbrev pub IsExtensionLock : ExtensionLock → Type 0
IsExtensionLock e =
    (e.package_name ≢ "") × (e.version ≢ "") × (matches_hash e.hash ≡ true) × (e.fetched_at ≢ 0)

abbrev pub IsValidLockfile : Lockfile → Type 0
IsValidLockfile lf =
    (lf.version ≡ pos 1)
    × All (λ (name, s). IsSourceLock s) lf.sources
    × All (λ (name, e). IsExtensionLock e) lf.extensions

-- `if c { return err }`, and what follows.
guard_none :
    (c : Bool) (e : String) (r : Option String)
    → ((if c then some e else r) ≡ none) ↔ ((c ≡ false) × (r ≡ none))
guard_none true e r = (λ h. cc, λ h. cc)
guard_none false e r = (λ h. (refl, h), λ h. h.1)

empty_iff : (s : String) → (str_eq s "" ≡ false) ↔ (s ≢ "")
empty_iff s = elim (str_eq-cases s "") [
  | inl (q, e) ↦ (λ h. cc, λ n. absurd (n e))
  | inr (q, n) ↦ (λ h. n, λ h. q)
]

not_iff : (b : Bool) → (not b ≡ false) ↔ (b ≡ true)
not_iff b = ground arith

zero_iff : (n : ℕ) → ((n == 0) ≡ false) ↔ (n ≢ 0)
zero_iff n = ground arith

first_error-All :
    {V : Type 0} (check : String → V → Option String) (P : V → Type 0)
    (fine : (k : String) (v : V) → (check k v ≡ none) ↔ P v) (m : List (String × V))
    → (first_error check m ≡ none) ↔ All (λ (k, v). P v) m
unfolding first_error
first_error-All check P fine [] = (λ h. tt, λ h. refl)
first_error-All check P fine ((k, v) ∷ m) =
    let (f, g) = fine k v in
    elim (Option-cases (check k v)) [
      | inl p ↦
          let (r, s) = first_error-All check P fine m in
          rw (first_error, p) (λ h. (f p, r h), λ h. s h.1)
      | inr (e, p) ↦ rw (first_error, p) (λ h. cc, λ h. cc (g h.0, p))
    ]

is_current_iff : (v : ℤ) → (is_current v ≡ true) ↔ (v ≡ pos 1)
unfolding is_current
is_current_iff (pos n) = ground arith
is_current_iff (negsuc n) = (λ h. cc, λ h. cc)

module _ (l : Library) where
  validate_source_lock_iff :
      (name : String) (s : SourceLock) → (validate_source_lock l name s ≡ none) ↔ IsSourceLock s
  unfolding validate_source_lock
  validate_source_lock_iff name s =
      let (a, a') = guard_none (str_eq s.repo "") _ _ in
      let (b, b') = guard_none (str_eq s.ref "") _ _ in
      let (c, c') = guard_none (not (matches_commit s.commit)) _ _ in
      let (d, d') = guard_none (not (matches_hash s.hash)) _ _ in
      let (e, e') = guard_none (s.fetched_at == 0) _ none in
      (
        λ h.
            let (h1, k1) = a h in
            let (h2, k2) = b k1 in
            let (h3, k3) = c k2 in
            let (h4, k4) = d k3 in
            (
              (empty_iff s.repo).0 h1,
              (empty_iff s.ref).0 h2,
              (not_iff _).0 h3,
              (not_iff _).0 h4,
              (zero_iff s.fetched_at).0 (e k4).0,
            ),
        λ (h1, h2, h3, h4, h5). a' (
          (empty_iff s.repo).1 h1,
          b' (
            (empty_iff s.ref).1 h2,
            c' ((not_iff _).1 h3, d' ((not_iff _).1 h4, e' ((zero_iff s.fetched_at).1 h5, refl))),
          ),
        ),
      )

  validate_extension_lock_iff :
      (name : String) (s : ExtensionLock)
      → (validate_extension_lock l name s ≡ none) ↔ IsExtensionLock s
  unfolding validate_extension_lock
  validate_extension_lock_iff name s =
      let (a, a') = guard_none (str_eq s.package_name "") _ _ in
      let (b, b') = guard_none (str_eq s.version "") _ _ in
      let (d, d') = guard_none (not (matches_hash s.hash)) _ _ in
      let (e, e') = guard_none (s.fetched_at == 0) _ none in
      (
        λ h.
            let (h1, k1) = a h in
            let (h2, k2) = b k1 in
            let (h4, k4) = d k2 in
            (
              (empty_iff s.package_name).0 h1,
              (empty_iff s.version).0 h2,
              (not_iff _).0 h4,
              (zero_iff s.fetched_at).0 (e k4).0,
            ),
        λ (h1, h2, h4, h5). a' (
          (empty_iff s.package_name).1 h1,
          b' (
            (empty_iff s.version).1 h2,
            d' ((not_iff _).1 h4, e' ((zero_iff s.fetched_at).1 h5, refl)),
          ),
        ),
      )

  validate_lockfile_iff : (lf : Lockfile) → (validate_lockfile l lf ≡ none) ↔ IsValidLockfile lf
  unfolding validate_lockfile
  validate_lockfile_iff lf =
      let (v, v') = is_current_iff lf.version in
      let (a, a') =
        first_error-All (validate_source_lock l) IsSourceLock validate_source_lock_iff lf.sources in
      let (b, b') =
        first_error-All (validate_extension_lock l) IsExtensionLock validate_extension_lock_iff
          lf.extensions in
      elim (Bool-cases (is_current lf.version)) [
        | inr q ↦ rw (validate_lockfile, q) (λ h. cc, λ h. cc (v' h.0, q))
        | inl q ↦ elim (Option-cases (first_error (validate_source_lock l) lf.sources)) [
          | inr (e, p) ↦ rw (validate_lockfile, q, p) (λ h. cc, λ h. cc (a' h.1, p))
          | inl p ↦ rw (validate_lockfile, q, p) (λ h. (v q, a p, b h), λ h. b' h.2)
        ]
      ]

  marshal_of :
      (lf : Lockfile) (bytes : List ℕ) → write_lockfile l lf ≡ ok bytes → l.marshal lf ≡ ok bytes
  unfolding write_lockfile
  marshal_of lf bytes = elim (Result-cases (l.marshal lf)) [
    | inl (e, p) ↦ rw (write_lockfile, p) (λ h. cc)
    | inr (b, p) ↦ rw (write_lockfile, p) (λ h. h)
  ]

  -- If YAML reads back what it wrote for a lockfile, then reading what Write wrote returns that
  -- lockfile exactly when it is valid: it has the current version, every source has a repository, a
  -- ref, a commit of 40 hexadecimal digits, a sha256 hash of 64 and a time, and every extension a
  -- package, a version, such a hash and a time.
  pub read_lockfile-write_lockfile :
      (lf : Lockfile) (bytes : List ℕ)
      → (l.marshal lf ≡ ok bytes → l.unmarshal bytes ≡ ok lf)
      → write_lockfile l lf ≡ ok bytes
      → (read_lockfile l bytes ≡ ok lf) ↔ IsValidLockfile lf
  unfolding read_lockfile write_lockfile
  read_lockfile-write_lockfile lf bytes yaml w =
      let p = yaml (marshal_of lf bytes w) in
      let (f, g) = validate_lockfile_iff lf in
      elim (Option-cases (validate_lockfile l lf)) [
        | inl q ↦ rw (read_lockfile, p, q) (λ h. f q, λ h. refl)
        | inr (e, q) ↦ rw (read_lockfile, p, q) (λ h. cc, λ h. cc (g h, q))
      ]
