-- ===== src/Task/Separate.antt =====
-- What a task's requirements give, as pkg/task/run.go checks them: aliases that do not collide.
use mathlib.Core.Path.{subst}
use mcpchecker.Prelude.Result.{Result-cases, ok}
use mcpchecker.Prelude.Assoc.{insert, lookup-insert_if, lookup}
use mcpchecker.Label.Parse.{split_two}
use mcpchecker.Task.Requirements.{
  has_manager, add_extension, add_server, check_no_servers, check_requirements, has_both,
  no_aliases, requirements_loop, Aliases, Managers, alias_or, check_alias, has_server, taken,
}
use mcpchecker.Prelude.{
  ℕ, List, [], eq_iff, if_false, if_true, refl, str_eq, sym, ◌+◌, ◌∙◌, ◌∷◌, Bool-cases, Option,
  Option-cases, String, false, inl, inr, none, some, true, ◌≡◌, ◌⊎◌,
}
use mcpchecker.Task.{Requirement}

-- No alias stands for both an extension and a server, and none has a dot.
pub record Separate (m : Managers) (a : Aliases) : Type 0 where
  pub apart : (k : String) → (lookup k a.extensions ≡ none) ⊎ (lookup k a.mcp_servers ≡ none)
  pub undotted :
      (k name : String)
      → (lookup k a.extensions ≡ some name) ⊎ (lookup k a.mcp_servers ≡ some name)
      → split_two 0x2E k ≡ none
  pub registered :
      (k name : String)
      → ((lookup k a.extensions ≡ some name) → m.has_extension name ≡ true)
        × ((lookup k a.mcp_servers ≡ some name) → has_server m name ≡ true)

taken-free :
    (k : String) (a : Aliases)
    → taken k a ≡ false
    → (lookup k a.extensions ≡ none) × (lookup k a.mcp_servers ≡ none)
taken-free k a h = elim (Option-cases (lookup k a.extensions)) [
  | inl e ↦ (
    e,
    elim (Option-cases (lookup k a.mcp_servers)) [
      | inl f ↦ f
      | inr (x, f) ↦ absurd (cc (rw (taken, e, f) at h))
    ],
  )
  | inr (x, e) ↦ absurd (cc (rw (taken, e) at h))
]

-- A free alias with no dot.
abbrev Free : String → Aliases → Type 0
Free k a =
    (lookup k a.extensions ≡ none) × (lookup k a.mcp_servers ≡ none) × (split_two 0x2E k ≡ none)

check_alias-Free :
    (m : Managers) (as_name : Option String) (name : String) (a : Aliases) (k : String)
    → check_alias m as_name name a ≡ ok k
    → Free k a
unfolding check_alias
check_alias-Free m as_name name a k h =
    let alias = alias_or as_name name in
    elim (Bool-cases (taken alias a)) [
      | inl q ↦ absurd (cc (sym (if_true _ q) ∙ h))
      | inr q ↦ elim (Option-cases (split_two 0x2E alias)) [
        | inl e ↦
            let p : alias ≡ k = cc (rw e at (sym (if_false _ q) ∙ h)) in
            let (x, y) = taken-free alias a q in subst (λ j. Free j a) p (x, y, e)
        | inr (parts, e) ↦ absurd (cc (rw e at (sym (if_false _ q) ∙ h)))
      ]
    ]

insert-some :
    (k j v x : String) (m : List (String × String))
    → lookup j (insert k v m) ≡ some x
    → ((k ≡ j) × (v ≡ x)) ⊎ (lookup j m ≡ some x)
insert-some k j v x m h = elim (Bool-cases (str_eq k j)) [
  | inl q ↦ inl ((eq_iff k j).0 q, cc (sym (if_true _ q) ∙ sym (lookup-insert_if k j v m) ∙ h))
  | inr q ↦ inr (sym (if_false _ q) ∙ sym (lookup-insert_if k j v m) ∙ h)
]

insert-none :
    (k j v : String) (m : List (String × String))
    → lookup j m ≡ none
    → (k ≡ j) ⊎ (lookup j (insert k v m) ≡ none)
insert-none k j v m h = elim (Bool-cases (str_eq k j)) [
  | inl q ↦ inl ((eq_iff k j).0 q)
  | inr q ↦ inr (lookup-insert_if k j v m ∙ if_false _ q ∙ h)
]

module _ (m : Managers) (a : Aliases) (s : Separate m a) (alias name : String)
    (f : Free alias a) where
  insert_extension :
      m.has_extension name ≡ true
      → Separate m (record a { extensions = insert alias name a.extensions })
  insert_extension h = record {
    apart = λ k. elim (s.apart k) [
      | inl e ↦ elim (insert-none alias k name a.extensions e) [
        | inl p ↦ inr (subst (λ j. lookup j a.mcp_servers ≡ none) p f.1)
        | inr g ↦ inl g
      ]
      | inr e ↦ inr e
    ];
    undotted = λ k x. elim [
      | inl e ↦ elim (insert-some alias k name x a.extensions e) [
        | inl (p, q) ↦ subst (λ j. split_two 0x2E j ≡ none) p f.2
        | inr g ↦ s.undotted k x (inl g)
      ]
      | inr e ↦ s.undotted k x (inr e)
    ];
    registered = λ k x. (
      λ e. elim (insert-some alias k name x a.extensions e) [
        | inl (p, q) ↦ subst (λ n. m.has_extension n ≡ true) q h
        | inr g ↦ (s.registered k x).0 g
      ],
      (s.registered k x).1,
    );
  }

  insert_server :
      has_server m name ≡ true
      → Separate m (record a { mcp_servers = insert alias name a.mcp_servers })
  insert_server h = record {
    apart = λ k. elim (s.apart k) [
      | inr e ↦ elim (insert-none alias k name a.mcp_servers e) [
        | inl p ↦ inl (subst (λ j. lookup j a.extensions ≡ none) p f.0)
        | inr g ↦ inr g
      ]
      | inl e ↦ inl e
    ];
    undotted = λ k x. elim [
      | inr e ↦ elim (insert-some alias k name x a.mcp_servers e) [
        | inl (p, q) ↦ subst (λ j. split_two 0x2E j ≡ none) p f.2
        | inr g ↦ s.undotted k x (inr g)
      ]
      | inl e ↦ s.undotted k x (inl e)
    ];
    registered = λ k x. (
      (s.registered k x).0,
      λ e. elim (insert-some alias k name x a.mcp_servers e) [
        | inl (p, q) ↦ subst (λ n. has_server m n ≡ true) q h
        | inr g ↦ (s.registered k x).1 g
      ],
    );
  }

module _ (m : Managers) (as_name : Option String) (a : Aliases) (s : Separate m a) where
  add_extension-Separate :
      (o : Option String) (b : Aliases) → add_extension m o as_name a ≡ ok b → Separate m b
  unfolding add_extension
  add_extension-Separate none b h = subst (Separate m) (cc h) s
  add_extension-Separate (some name) b h = elim (Bool-cases (m.has_extension name)) [
    | inl q ↦ elim (Result-cases (check_alias m as_name name a)) [
      | inl (x, e) ↦ absurd (cc (rw e at (sym (if_true _ q) ∙ h)))
      | inr (k, e) ↦
          subst (Separate m) (cc (rw e at (sym (if_true _ q) ∙ h)))
            (insert_extension m a s k name (check_alias-Free m as_name name a k e) q)
    ]
    | inr q ↦ absurd (cc (sym (if_false _ q) ∙ h))
  ]

  add_server-Separate :
      (o : Option String) (b : Aliases) → add_server m o as_name a ≡ ok b → Separate m b
  unfolding add_server
  add_server-Separate none b h = subst (Separate m) (cc h) s
  add_server-Separate (some name) b h = elim (Bool-cases (has_server m name)) [
    | inl q ↦ elim (Result-cases (check_alias m as_name name a)) [
      | inl (x, e) ↦ absurd (cc (rw e at (sym (if_true _ q) ∙ h)))
      | inr (k, e) ↦
          subst (Separate m) (cc (rw e at (sym (if_true _ q) ∙ h)))
            (insert_server m a s k name (check_alias-Free m as_name name a k e) q)
    ]
    | inr q ↦ absurd (cc (sym (if_false _ q) ∙ h))
  ]

requirements_loop-Separate :
    (m : Managers) (i : ℕ) (reqs : List Requirement) (a b : Aliases)
    → Separate m a
    → requirements_loop m i reqs a ≡ ok b
    → Separate m b
unfolding requirements_loop
requirements_loop-Separate m i [] a b s h = subst (Separate m) (cc h) s
requirements_loop-Separate m i (req ∷ reqs) a b s h = elim (Bool-cases (has_both req)) [
  | inl q ↦ absurd (cc (sym (if_true _ q) ∙ h))
  | inr q ↦ elim (Result-cases (add_extension m req.extension req.alias a)) [
    | inl (x, e) ↦ absurd (cc (rw e at (sym (if_false _ q) ∙ h)))
    | inr (c, e) ↦ elim (Result-cases (add_server m req.mcp_server req.alias c)) [
      | inl (x, f) ↦ absurd (cc (rw (e, f) at (sym (if_false _ q) ∙ h)))
      | inr (d, f) ↦
          requirements_loop-Separate m (i + 1) reqs d b
            (add_server-Separate m req.alias c
              (add_extension-Separate m req.alias a s req.extension c e) req.mcp_server d f)
            (rw (e, f) at (sym (if_false _ q) ∙ h))
    ]
  ]
]

-- If a task's requirements pass, no alias stands for both an extension and an MCP server, no alias has a
-- dot, and each stands for an extension or a server that the managers know.
pub check_requirements-Separate :
    (m : Managers) (reqs : List Requirement) (a : Aliases)
    → check_requirements m reqs ≡ ok a
    → Separate m a
unfolding check_requirements lookup
check_requirements-Separate m reqs a h =
    let start : Separate m no_aliases = record {
      apart = λ k. inl refl;
      undotted = λ k x. elim [ inl e ↦ absurd (cc e) | inr e ↦ absurd (cc e) ];
      registered = λ k x. (λ e. absurd (cc e), λ e. absurd (cc e));
    } in
    elim (Bool-cases (has_manager m)) [
      | inl q ↦ requirements_loop-Separate m 0 reqs no_aliases a start (sym (if_true _ q) ∙ h)
      | inr q ↦ elim (Option-cases (check_no_servers m reqs)) [
        | inl e ↦
            requirements_loop-Separate m 0 reqs no_aliases a start
              (rw e at (sym (if_false _ q) ∙ h))
        | inr (x, e) ↦ absurd (cc (rw e at (sym (if_false _ q) ∙ h)))
      ]
    ]
