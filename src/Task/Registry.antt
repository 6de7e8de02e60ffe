-- ===== src/Task/Registry.antt =====
-- pkg/steps/registry.go: the parsers of the steps by their types. A map's lock plays no part in what a
-- call answers.
use mcpchecker.Prelude.Result.{Result, err, ok}
use mcpchecker.Prelude.Assoc.{insert, lookup}
use mcpchecker.Label.Parse.{split_two}
use mcpchecker.Proxy.{Payload}
use mcpchecker.Prelude.{List, String, [], concat, none, some, ◌∷◌}
use mcpchecker.Task.{StepRunner}

abbrev pub Parser : Type 0 → Type 0 → Type 0
Parser Ctx W = Payload → W → Result (StepRunner Ctx W) × W

abbrev pub PrefixParser : Type 0 → Type 0 → Type 0
PrefixParser Ctx W = String → Payload → W → Result (StepRunner Ctx W) × W

pub record Registry (Ctx W : Type 0) : Type 0 where
  pub parsers : List (String × Parser Ctx W)
  pub prefix_parsers : List (String × PrefixParser Ctx W)

-- The loop over the aliases of `WithExtensions` and `WithMcpServers`.
unfoldable pub with_aliases :
    {V : Type 0} → (String → V) → List (String × String) → List (String × V) → List (String × V)
with_aliases new_parser [] m = m
with_aliases new_parser ((alias, name) ∷ aliases) m =
    with_aliases new_parser aliases (insert alias (new_parser name) m)

module _ {Ctx W : Type 0} where
  unfoldable pub register : Registry Ctx W → String → Parser Ctx W → Result (Registry Ctx W)
  register r step_type parser = elim (lookup step_type r.parsers) [
    | some p ↦ err (concat ("a parser already exists for type '" ∷ step_type ∷ "'" ∷ []))
    | none ↦ ok (record r { parsers = insert step_type parser r.parsers })
  ]

  unfoldable pub register_prefix :
      Registry Ctx W → String → PrefixParser Ctx W → Result (Registry Ctx W)
  register_prefix r prefix parser = elim (lookup prefix r.prefix_parsers) [
    | some p ↦ err (concat ("a prefix parser already exists for prefix '" ∷ prefix ∷ "'" ∷ []))
    | none ↦ ok (record r { prefix_parsers = insert prefix parser r.prefix_parsers })
  ]

  -- `WithExtensions` and `WithMcpServers`: the copy of the registry with the aliases as prefixes.
  unfoldable pub with_prefixes :
      (String → PrefixParser Ctx W) → List (String × String) → Registry Ctx W → Registry Ctx W
  unfolding with_aliases
  with_prefixes new_parser aliases r = record r {
    prefix_parsers = with_aliases new_parser aliases r.prefix_parsers;
  }

  -- `if err != nil { return fmt.Errorf("failed to parse step: %w", err) }`
  unfoldable pub parsed : Result (StepRunner Ctx W) × W → Result (StepRunner Ctx W) × W
  parsed (ok s, w) = (ok s, w)
  parsed (err e, w) = (err (concat ("failed to parse step: " ∷ e ∷ [])), w)

  unfoldable pub unknown : String → W → Result (StepRunner Ctx W) × W
  unknown step_type w = (err (concat ("unknown step type '" ∷ step_type ∷ "'" ∷ [])), w)

  unfoldable pub parse_type : Registry Ctx W → String → Payload → W → Result (StepRunner Ctx W) × W
  unfolding parsed unknown
  parse_type r step_type raw w = elim (lookup step_type r.parsers) [
    | none ↦ unknown step_type w
    | some parser ↦ parsed (parser raw w)
  ]

  unfoldable pub parse_prefix :
      Registry Ctx W → String → String × String → Payload → W → Result (StepRunner Ctx W) × W
  unfolding parsed unknown
  parse_prefix r step_type (prefix, suffix) raw w = elim (lookup prefix r.prefix_parsers) [
    | none ↦ unknown step_type w
    | some parser ↦ parsed (parser suffix raw w)
  ]

  -- `Parse`: a step has exactly one type; one with a dot is of a prefix. Its check for a nil step is left
  -- out, as its only caller has read the step's id before.
  unfoldable pub parse_config :
      Registry Ctx W → List (String × Payload) → W → Result (StepRunner Ctx W) × W
  unfolding parse_type parse_prefix
  parse_config r [] w = (err "each step must have exactly one type", w)
  parse_config r ((step_type, raw) ∷ []) w = elim (split_two 0x2E step_type) [
    | some parts ↦ parse_prefix r step_type parts raw w
    | none ↦ parse_type r step_type raw w
  ]
  parse_config r (a ∷ b ∷ rest) w = (err "each step must have exactly one type", w)
