-- ===== src/Lockfile/Tests.antt =====
-- Runs of the lockfile.
use mcpchecker.Lockfile.Valid.{IsValidLockfile, read_lockfile-write_lockfile}
use mcpchecker.Lockfile.{
  Library, ok, Lockfile, matches_commit, read_lockfile, validate_lockfile, write_lockfile,
}
use mcpchecker.Prelude.{String, [], concat, false, none, refl, ◌↔◌, ◌∷◌, ◌≡◌}
use mcpchecker.Prelude.Int.{pos}

abbrev digits16 : String
digits16 = "0123456789abcdef"

abbrev lock : Lockfile
lock = record {
  version = pos 1;
  sources =
      (
        "upstream",
        record {
          repo = "github.com/org/repo";
          ref = "main";
          commit = "abc123def456789012345678901234567890abcd";
          hash = concat ("sha256:" ∷ digits16 ∷ digits16 ∷ digits16 ∷ digits16 ∷ []);
          fetched_at = 5;
        },
      )
      ∷ [];
  extensions = [];
}

-- A YAML that knows this lockfile alone.
abbrev yaml : Library
yaml = record {
  unmarshal = λ bytes. ok lock;
  marshal = λ lf. ok (1 ∷ []);
  quote = λ s. concat ("\"" ∷ s ∷ "\"" ∷ []);
}

lock_runs : validate_lockfile yaml lock ≡ none
unfolding validate_lockfile concat
lock_runs = refl

short_commit : matches_commit "abc123" ≡ false
unfolding matches_commit
short_commit = refl

upper_commit : matches_commit "ABC123def456789012345678901234567890abcd" ≡ false
unfolding matches_commit
upper_commit = refl

read_lockfile-write_lockfile_example :
    (read_lockfile yaml (1 ∷ []) ≡ ok lock) ↔ IsValidLockfile lock
unfolding write_lockfile
read_lockfile-write_lockfile_example =
    read_lockfile-write_lockfile yaml lock (1 ∷ []) (λ e. refl) refl
