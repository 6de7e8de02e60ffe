-- ===== src/Lockfile.antt =====
-- pkg/lockfile/lockfile.go: the lockfile of the sources and extensions that are installed. YAML and
-- `%q` are parameters; the two regular expressions are written out over characters; a time is a number,
-- 0 the zero time. Reading and writing files is left out.
pub mod Valid
mod Tests
use mcpchecker.Prelude.Int.{negsuc, pos, show_ℤ, ℤ}
use mcpchecker.Prelude.Result.{Result, err, ok}
use mcpchecker.Prelude.{
  ℕ, Bool, List, Option, String, [], concat, false, if◌then◌else◌, leb, none, not, some, str_append,
  str_eq, suc, true, zero, ◌&&◌, ◌==◌, ◌||◌, ◌∷◌,
}
use text.Mathlib.Text.{starts_with}
use Prim.Native.Char.{Char, code}
use Prim.Native.String.{len, slice, ◌∷◌ as char_cons, [] as no_chars}

pub record SourceLock : Type 0 where
  pub repo : String
  pub ref : String
  pub commit : String
  pub hash : String
  pub fetched_at : ℕ

pub record ExtensionLock : Type 0 where
  pub package_name : String
  pub version : String
  pub hash : String
  pub fetched_at : ℕ

pub record Lockfile : Type 0 where
  pub version : ℤ
  pub sources : List (String × SourceLock)
  pub extensions : List (String × ExtensionLock)

pub record Library : Type 0 where
  -- `yaml.Unmarshal` and `yaml.Marshal`
  pub unmarshal : List ℕ → Result Lockfile
  pub marshal : Lockfile → Result (List ℕ)
  -- `%q`
  pub quote : String → String

-- `[0-9a-f]`
unfoldable pub is_hex : Char → Bool
is_hex c = let n = code c in (leb 48 n && leb n 57) || (leb 97 n && leb n 102)

-- `^[0-9a-f]{n}$`
unfoldable pub is_hex_of : ℕ → String → Bool
unfolding is_hex
is_hex_of zero no_chars = true
is_hex_of zero (char_cons c s) = false
is_hex_of (suc n) no_chars = false
is_hex_of (suc n) (char_cons c s) = is_hex c && is_hex_of n s

-- `commitSHARegex` and `hashRegex`
unfoldable pub matches_commit : String → Bool
unfolding is_hex_of
matches_commit s = is_hex_of 40 s

unfoldable pub matches_hash : String → Bool
unfolding is_hex_of
matches_hash s = starts_with s "sha256:" && is_hex_of 64 (slice s 7 (len s))

unfoldable pub validate_source_lock : Library → String → SourceLock → Option String
unfolding matches_commit matches_hash
validate_source_lock l name src =
    let at = str_append "source " (l.quote name) in
    if str_eq src.repo ""
    then some (concat (at ∷ " has empty repo" ∷ []))
    else if str_eq src.ref ""
    then some (concat (at ∷ " has empty ref" ∷ []))
    else if not (matches_commit src.commit)
    then some (
        concat (
          at
          ∷ " has invalid commit SHA "
          ∷ l.quote src.commit
          ∷ ": must be a 40-character hex string"
          ∷ []))
    else if not (matches_hash src.hash)
    then some (
        concat
          (at ∷ " has invalid hash " ∷ l.quote src.hash ∷ ": must be sha256:<64 hex chars>" ∷ []))
    else if src.fetched_at == 0
    then some (concat (at ∷ " has empty fetchedAt" ∷ []))
    else none

unfoldable pub validate_extension_lock : Library → String → ExtensionLock → Option String
unfolding matches_hash
validate_extension_lock l name ext =
    let at = str_append "extension " (l.quote name) in
    if str_eq ext.package_name ""
    then some (concat (at ∷ " has empty package" ∷ []))
    else if str_eq ext.version ""
    then some (concat (at ∷ " has empty version" ∷ []))
    else if not (matches_hash ext.hash)
    then some (
        concat
          (at ∷ " has invalid hash " ∷ l.quote ext.hash ∷ ": must be sha256:<64 hex chars>" ∷ []))
    else if ext.fetched_at == 0
    then some (concat (at ∷ " has empty fetchedAt" ∷ []))
    else none

-- The first error of the entries of a map.
unfoldable pub first_error :
    {V : Type 0} → (String → V → Option String) → List (String × V) → Option String
first_error check [] = none
first_error check ((k, v) ∷ m) = elim (check k v) [ some e ↦ some e | none ↦ first_error check m ]

-- Whether a version is `CurrentVersion`.
unfoldable pub is_current : ℤ → Bool
is_current (pos n) = n == 1
is_current (negsuc n) = false

unfoldable pub validate_lockfile : Library → Lockfile → Option String
unfolding is_current first_error validate_source_lock validate_extension_lock
validate_lockfile l lf =
    if not (is_current lf.version)
    then some (concat ("unsupported lockfile version: " ∷ show_ℤ lf.version ∷ []))
    else elim (first_error (validate_source_lock l) lf.sources) [
      | some e ↦ some e
      | none ↦ first_error (validate_extension_lock l) lf.extensions
    ]

unfoldable pub read_lockfile : Library → List ℕ → Result Lockfile
unfolding validate_lockfile
read_lockfile l bytes = elim (l.unmarshal bytes) [
  | err e ↦ err (concat ("failed to parse lockfile: " ∷ e ∷ []))
  | ok lf ↦ elim (validate_lockfile l lf) [ some e ↦ err e | none ↦ ok lf ]
]

unfoldable pub write_lockfile : Library → Lockfile → Result (List ℕ)
write_lockfile l lf = elim (l.marshal lf) [
  | err e ↦ err (concat ("failed to marshal lockfile: " ∷ e ∷ []))
  | ok bytes ↦ ok bytes
]
