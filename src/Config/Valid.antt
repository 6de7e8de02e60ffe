-- ===== src/Config/Valid.antt =====
-- What pkg/eval/config.go asks of an eval file.
use mcpchecker.Config.Read.{entries}
use mcpchecker.Label.{TaskSet}
use mcpchecker.Prelude.{All, Option, String, false, none, some, ◌≡◌, ◌≢◌, ◌⊎◌}
use mcpchecker.Config.{
  EvalSpec, Library, EvalConfig, SkillSource, SkillsConfig, SourceSpec, Sources,
}
use text.Mathlib.Text.{starts_with}
use mcpchecker.Prelude.Assoc.{lookup}

abbrev pub IsSource : Option SourceSpec → Type 0
IsSource none = ⊥
IsSource (some s) = (s.repo ≢ "") × (s.ref ≢ "")

abbrev pub IsSkill : SkillSource → Type 0
IsSkill s = (s.source_type ≡ "path") × (s.path ≢ "")

-- A path that stays in the directory that it is relative to.
abbrev pub IsInside : Library → String → Type 0
IsInside l p =
    (l.path_is_abs p ≡ false)
    × (l.is_abs p ≡ false)
    × (l.clean p ≢ "..")
    × (starts_with (l.clean p) "../" ≡ false)

-- The path of a set is the glob where there is no path.
abbrev pub PathIsInside : Library → TaskSet → Type 0
PathIsInside l ts =
    ((ts.path ≢ "") × IsInside l ts.path)
    ⊎ ((ts.path ≡ "") × ((ts.glob ≡ "") ⊎ ((ts.glob ≢ "") × IsInside l ts.glob)))

abbrev pub IsDeclared : String → Option Sources → Type 0
IsDeclared name none = ⊥
IsDeclared name (some m) = lookup name m ≢ none

abbrev pub IsTaskSet : Library → Option Sources → TaskSet → Type 0
IsTaskSet l sources ts =
    (ts.source ≡ "") ⊎ ((ts.source ≢ "") × IsDeclared ts.source sources × PathIsInside l ts)

-- No skills at all, or only good ones.
abbrev pub SkillsAreFine : Option SkillsConfig → Type 0
SkillsAreFine none = Unit
SkillsAreFine (some c) = All IsSkill c.sources

abbrev pub IsKnownVersion : String → Type 0
IsKnownVersion v = (v ≡ "") ⊎ ((v ≡ "mcpchecker/v1alpha1") ⊎ (v ≡ "mcpchecker/v1alpha2"))

abbrev pub IsValidConfig : Library → EvalConfig → Type 0
IsValidConfig l c =
    All (λ (name, s). IsSource s) (entries c.sources)
    × SkillsAreFine c.skills
    × All (IsTaskSet l c.sources) c.task_sets

abbrev pub IsValid : Library → EvalSpec → Type 0
IsValid l s =
    IsKnownVersion s.type_meta.api_version × (s.type_meta.kind ≡ "Eval") × IsValidConfig l s.config
