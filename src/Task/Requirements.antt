-- ===== src/Task/Requirements.antt =====
-- The requirements of a task, as `NewTaskRunner` of pkg/task/run.go checks them: each extension and each
-- MCP server gets an alias that no other has.
use mcpchecker.Prelude.Result.{ok, err, Result, then_ok}
use mcpchecker.Prelude.Assoc.{insert, lookup}
use mcpchecker.Label.Parse.{split_two}
use mcpchecker.Prelude.{
  ℕ, Bool, List, Option, String, [], concat, false, if◌then◌else◌, none, show_ℕ, some, str_eq, true,
  ◌+◌, ◌∷◌,
}
use mcpchecker.Task.{Requirement}

-- What a context carries: the extension manager's `Has`, the MCP manager's `Get`, if there is one, and
-- the quoting of `%q`.
pub record Managers : Type 0 where
  pub has_extension : String → Bool
  pub mcp_server : Option (String → Bool)
  pub quote : String → String

-- `extensions` and `mcpServers`
pub record Aliases : Type 0 where
  pub extensions : List (String × String)
  pub mcp_servers : List (String × String)

abbrev pub no_aliases : Aliases
no_aliases = record { extensions = []; mcp_servers = [] }

-- Without an MCP manager no MCP server may be required.
unfoldable pub check_no_servers : Managers → List Requirement → Option String
check_no_servers m [] = none
check_no_servers m (req ∷ reqs) = elim req.mcp_server [
  | some name ↦ some (
      concat ("task requires mcpServer " ∷ m.quote name ∷ " but no MCP manager is configured" ∷ []))
  | none ↦ check_no_servers m reqs
]

abbrev pub taken : String → Aliases → Bool
taken alias a = elim (lookup alias a.extensions) [
  | some x ↦ true
  | none ↦ elim (lookup alias a.mcp_servers) [ some x ↦ true | none ↦ false ]
]

-- The alias that a requirement asks for, or else its name, once it is checked.
unfoldable pub alias_or : Option String → String → String
alias_or none name = name
alias_or (some s) name = if str_eq s "" then name else s

unfoldable pub check_alias : Managers → Option String → String → Aliases → Result String
unfolding alias_or
check_alias m as_name name a =
    let alias = alias_or as_name name in
    if taken alias a
    then err (concat ("duplicate alias " ∷ m.quote alias ∷ " in requirements" ∷ []))
    else elim (split_two 0x2E alias) [
      | some parts ↦ err (concat ("alias " ∷ m.quote alias ∷ " cannot contain dots" ∷ []))
      | none ↦ ok alias
    ]

unfoldable pub add_extension : Managers → Option String → Option String → Aliases → Result Aliases
unfolding check_alias
add_extension m none as_name a = ok a
add_extension m (some name) as_name a =
    if m.has_extension name
    then then_ok (check_alias m as_name name a)
        (λ alias. ok (record a { extensions = insert alias name a.extensions }))
    else err (concat ("required extension " ∷ m.quote name ∷ " not registered" ∷ []))

-- `mcpClientManager.Get`: with no manager the loop is not reached by a task that requires a server.
unfoldable pub has_server : Managers → String → Bool
has_server m name = elim m.mcp_server [ some get ↦ get name | none ↦ false ]

unfoldable pub add_server : Managers → Option String → Option String → Aliases → Result Aliases
unfolding check_alias has_server
add_server m none as_name a = ok a
add_server m (some name) as_name a =
    if has_server m name
    then then_ok (check_alias m as_name name a)
        (λ alias. ok (record a { mcp_servers = insert alias name a.mcp_servers }))
    else err (concat ("required mcpServer " ∷ m.quote name ∷ " not registered" ∷ []))

unfoldable pub has_both : Requirement → Bool
has_both req = elim req.mcp_server [
  | none ↦ false
  | some s ↦ elim req.extension [ none ↦ false | some e ↦ true ]
]

-- The loop over the requirements, from the `i`-th on.
unfoldable pub requirements_loop : Managers → ℕ → List Requirement → Aliases → Result Aliases
unfolding add_extension add_server has_both
requirements_loop m i [] a = ok a
requirements_loop m i (req ∷ reqs) a =
    if has_both req
    then err (
        concat (
          "task.spec.requires["
          ∷ show_ℕ i
          ∷ "] is invalid: must have only one of mcpserver or extension defined, has both"
          ∷ []))
    else then_ok (add_extension m req.extension req.alias a) (λ b.
      then_ok (add_server m req.mcp_server req.alias b) (λ c. requirements_loop m (i + 1) reqs c))

-- `hasMcpManager`
abbrev pub has_manager : Managers → Bool
has_manager m = elim m.mcp_server [ some get ↦ true | none ↦ false ]

unfoldable pub check_requirements : Managers → List Requirement → Result Aliases
unfolding check_no_servers requirements_loop
check_requirements m reqs =
    if has_manager m
    then requirements_loop m 0 reqs no_aliases
    else elim (check_no_servers m reqs) [
      | some e ↦ err e
      | none ↦ requirements_loop m 0 reqs no_aliases
    ]
