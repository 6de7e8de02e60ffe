-- ===== src/Config/Validate.antt =====
-- The checks of pkg/eval/config.go and pkg/util/meta.go: an error is its message, and `none` is nil.
use text.Mathlib.Text.{starts_with}
use mcpchecker.Label.{TaskSet}
use mcpchecker.Prelude.Assoc.{lookup}
use mcpchecker.Config.{Library, SourceSpec, Sources, TypeMeta}
use mcpchecker.Prelude.{
  Bool, Option, String, [], concat, if◌then◌else◌, none, not, some, str_eq, ◌||◌, ◌∷◌,
}

unfoldable pub known_version : String → Bool
known_version version =
    str_eq version ""
    || (str_eq version "mcpchecker/v1alpha1" || str_eq version "mcpchecker/v1alpha2")

unfoldable pub validate_api_version : String → Option String
unfolding known_version
validate_api_version version =
    if known_version version then none else some (concat ("unknown apiVersion: '" ∷ version ∷ []))

-- `errors.Join`
unfoldable pub join : Option String → Option String → Option String
join none f = f
join (some e) none = some e
join (some e) (some f) = some (concat (e ∷ "\n" ∷ f ∷ []))

unfoldable pub validate_kind : TypeMeta → String → Option String
validate_kind m expected =
    if not (str_eq m.kind expected)
    then some (concat ("wrong kind: got '" ∷ m.kind ∷ "', expected '" ∷ expected ∷ "'" ∷ []))
    else none

unfoldable pub validate : TypeMeta → String → Option String
unfolding join validate_api_version validate_kind
validate m expected = join (validate_api_version m.api_version) (validate_kind m expected)

unfoldable pub validate_source_spec : Library → String → Option SourceSpec → Option String
validate_source_spec l name none = some (concat ("source " ∷ l.quote name ∷ " is nil" ∷ []))
validate_source_spec l name (some src) =
    if str_eq src.repo ""
    then some (concat ("source " ∷ l.quote name ∷ " requires a repo field" ∷ []))
    else if str_eq src.ref ""
    then some (concat ("source " ∷ l.quote name ∷ " requires a ref field" ∷ []))
    else none

-- Whether a path leaves the directory that it is relative to.
unfoldable pub escapes : Library → String → Bool
escapes l p = str_eq (l.clean p) ".." || starts_with (l.clean p) "../"

unfoldable pub validate_no_path_escape : Library → String → Option String
unfolding escapes
validate_no_path_escape l p =
    if escapes l p
    then some (concat ("path " ∷ l.quote p ∷ " escapes the repo root" ∷ []))
    else none

-- The path of a task set and its kind.
unfoldable pub task_path : TaskSet → String × String
task_path ts = if not (str_eq ts.path "") then (ts.path, "path") else (ts.glob, "glob")

unfoldable pub validate_task_path : Library → String → String → String → Option String
unfolding validate_no_path_escape
validate_task_path l source path kind =
    if str_eq path ""
    then none
    else if l.path_is_abs path || l.is_abs path
    then some (
        concat (
          "has source "
          ∷ l.quote source
          ∷ " but "
          ∷ kind
          ∷ " "
          ∷ l.quote path
          ∷ " is absolute; sourced task sets must use relative paths"
          ∷ []))
    else elim (validate_no_path_escape l path) [
      | some e ↦ some (concat (kind ∷ " escapes source repo root: " ∷ e ∷ []))
      | none ↦ none
    ]

unfoldable pub validate_source : Library → TaskSet → Option Sources → Option String
unfolding validate_task_path task_path lookup
validate_source l ts none =
    some (concat ("references source " ∷ l.quote ts.source ∷ " but no sources are defined" ∷ []))
validate_source l ts (some sources) = elim (lookup ts.source sources) [
  | none ↦ some (concat ("references undefined source " ∷ l.quote ts.source ∷ []))
  | some s ↦ validate_task_path l ts.source (task_path ts).0 (task_path ts).1
]
