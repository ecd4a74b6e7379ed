-- ===== src/Operad/Mutate.antt =====
-- `ValidateMUTATE` against a description of the MUTATEs that the grammar admits.
use mathlib.Core.List.{Memᴰ}
use moos_kernel.Prelude.{
  String, ◌≡◌, ◌≢◌, refl, sym, ◌∙◌, inl, inr, ◌⊎◌, ◌↔◌, false, not, ◌&&◌, none, some, List, [], ◌∷◌,
  ◌==◌, ok, ◌>>◌, reject_if, reject_if-passes, get, is_empty, arith, eq_iff, Bool-cases,
  Option-cases,
}
use moos_kernel.Graph.{Urn, mutate, Value, str, Property, Node, Envelope}
use moos_kernel.Operad.{
  PropertySpec, NodeTypeSpec, RewriteCategorySpec, Registry, contains_rewrite, contains_string,
  not_allowed, not_mutable, out_of_scope, immutable_field,
}
use moos_kernel.Operad.Validate.{
  check_owner_value, check_owner, check_authority, known_category, validate_additive_spec,
  validate_additive, validate_declared, validate_existing, validate_mutate,
}
use moos_kernel.Operad.Members.{contains_mutate_iff, contains_string_iff}

-- Where the node names its owner by a string, the actor is that owner.
abbrev pub Owns : Urn → Node → Type 0
Owns actor node =
    (q : Property) (o : String)
    → get "owner_urn" node.properties ≡ some q
    → q.value ≡ str o
    → o ≡ actor

abbrev pub Authorised : PropertySpec → Urn → Node → Type 0
Authorised p actor node = p.authority_scope ≡ "owner" → Owns actor node

-- What the grammar admits, for a field that is on the node and for one that is not.
pub data MutateAllowed (r : Registry) (env : Envelope) (node : Node) : Type 0 where
  existing :
      (prop : Property) (wf : RewriteCategorySpec)
      → get env.field node.properties ≡ some prop
      → get env.rewrite_category r.rewrite_categories ≡ some wf
      → Memᴰ mutate wf.allowed_rewrites
      → (wf.mutate_scope ≡ []) ⊎ Memᴰ env.field wf.mutate_scope
      → ((spec : NodeTypeSpec) (p : PropertySpec)
          → get node.type_id r.node_types ≡ some spec
          → get env.field spec.properties ≡ some p
          → (p.mutability ≢ "immutable") × Authorised p env.actor node)
      → MutateAllowed r env node
  additive :
      get env.field node.properties ≡ none
      → ((spec : NodeTypeSpec)
          → get node.type_id r.node_types ≡ some spec
          → (p : PropertySpec) × (get env.field spec.properties ≡ some p)
            × (p.mutability ≡ "mutable")
            × Authorised p env.actor node)
      → (env.rewrite_category ≡ "")
        ⊎ ((wf : RewriteCategorySpec) × (get env.rewrite_category r.rewrite_categories ≡ some wf))
      → MutateAllowed r env node

owner_iff :
    (actor : Urn) (v : Value)
    → (check_owner_value actor v ≡ ok tt) ↔ ((o : String) → v ≡ str o → o ≡ actor)
unfolding check_owner_value
owner_iff actor (str w) =
    (λ h o e. ground (arith, eq_iff w actor), λ h. ground (arith, h w refl, eq_iff w actor))
owner_iff actor _ = (λ h o e. absurd (ground arith), λ h. refl)

authority_iff :
    (p : PropertySpec) (actor : Urn) (node : Node)
    → (check_authority p.authority_scope actor node ≡ ok tt) ↔ Authorised p actor node
unfolding check_authority check_owner
authority_iff p actor node = elim (Bool-cases (p.authority_scope == "owner")) [
  | inr e ↦ (
    λ h scope. absurd (ground (arith, eq_iff p.authority_scope "owner")),
    λ h. rw (e, check_authority),
  )
  | inl e ↦ elim (Option-cases (get "owner_urn" node.properties)) [
    | inl missing ↦ (λ h scope q o at. absurd (ground arith), λ h. ground arith)
    | inr (q, found) ↦
        let same : check_authority p.authority_scope actor node ≡ check_owner_value actor q.value =
          ground arith in
        (
          λ h scope q' o at is_o. (owner_iff actor q.value).0 (sym same ∙ h) o (ground arith),
          λ h.
              same
              ∙ (owner_iff actor q.value).1
                  (λ o is_o. h ((eq_iff p.authority_scope "owner").0 e) q o found is_o),
        )
  ]
]

module _ (r : Registry) (env : Envelope) (node : Node) where
  abbrev DeclaredOk : Type 0
  DeclaredOk =
      (spec : NodeTypeSpec) (p : PropertySpec)
      → get node.type_id r.node_types ≡ some spec
      → get env.field spec.properties ≡ some p
      → (p.mutability ≢ "immutable") × Authorised p env.actor node

  declared_sound : validate_declared r env node ≡ ok tt → DeclaredOk
  unfolding validate_declared
  declared_sound h spec p at_type at_field =
      let eq : validate_declared r env node ≡ (
          reject_if (p.mutability == "immutable") (immutable_field env.field)
          >> check_authority p.authority_scope env.actor node) =
        ground arith in
      let (live, rest) =
        reject_if-passes (p.mutability == "immutable") (immutable_field env.field)
          (check_authority p.authority_scope env.actor node) tt (sym eq ∙ h) in
      (
        λ e. ground (arith, eq_iff p.mutability "immutable"),
        (authority_iff p env.actor node).0 rest,
      )

  declared_complete : DeclaredOk → validate_declared r env node ≡ ok tt
  unfolding validate_declared
  declared_complete h = elim (Option-cases (get node.type_id r.node_types)) [
    | inl missing ↦ ground arith
    | inr (spec, at_type) ↦ elim (Option-cases (get env.field spec.properties)) [
      | inl missing ↦ ground arith
      | inr (p, at_field) ↦
          let (live, owns) = h spec p at_type at_field in
          ground (arith, (authority_iff p env.actor node).1 owns, eq_iff p.mutability "immutable")
    ]
  ]

  scope_iff :
      (scope : List String)
      → ((not (is_empty scope) && not (contains_string scope env.field)) ≡ false)
        ↔ ((scope ≡ []) ⊎ Memᴰ env.field scope)
  scope_iff [] = (λ h. inl refl, λ h. refl)
  scope_iff (v ∷ vs) = (
    λ h. inr ((contains_string_iff (v ∷ vs) env.field).0 (ground arith)),
    λ h. elim h [
      | inl e ↦ absurd (ground arith)
      | inr m ↦ ground (arith, (contains_string_iff (v ∷ vs) env.field).1 m)
    ],
  )

  existing_sound :
      (prop : Property)
      → get env.field node.properties ≡ some prop
      → validate_existing r env node ≡ ok tt
      → MutateAllowed r env node
  unfolding validate_existing
  existing_sound prop present h =
      elim (Option-cases (get env.rewrite_category r.rewrite_categories)) [
        | inl missing ↦ absurd (ground arith)
        | inr (wf, found) ↦
            let eq : validate_existing r env node ≡ (
                reject_if (not (contains_rewrite wf.allowed_rewrites mutate))
                  (not_allowed env.rewrite_category)
                >> (reject_if
                      (not (is_empty wf.mutate_scope)
                        && not (contains_string wf.mutate_scope env.field))
                      (out_of_scope env.field)
                    >> validate_declared r env node)) =
              ground arith in
            let (allows, h1) =
              reject_if-passes (not (contains_rewrite wf.allowed_rewrites mutate))
                (not_allowed env.rewrite_category) _ tt (sym eq ∙ h) in
            let (scope, h2) =
              reject_if-passes
                (not (is_empty wf.mutate_scope) && not (contains_string wf.mutate_scope env.field))
                (out_of_scope env.field) (validate_declared r env node) tt h1 in
            existing prop wf present found
              ((contains_mutate_iff wf.allowed_rewrites).0 (ground arith))
              ((scope_iff wf.mutate_scope).0 scope) (declared_sound h2)
      ]

  additive_spec_iff :
      (spec : NodeTypeSpec)
      → (validate_additive_spec env node spec ≡ ok tt) ↔ (
          (p : PropertySpec) × (get env.field spec.properties ≡ some p)
          × (p.mutability ≡ "mutable")
          × Authorised p env.actor node)
  unfolding validate_additive_spec
  additive_spec_iff spec = (
    λ h. elim (Option-cases (get env.field spec.properties)) [
      | inl missing ↦ absurd (ground arith)
      | inr (p, found) ↦
          let eq : validate_additive_spec env node spec ≡ (
              reject_if (not (p.mutability == "mutable")) (not_mutable env.field)
              >> check_authority p.authority_scope env.actor node) =
            ground arith in
          let (live, rest) =
            reject_if-passes (not (p.mutability == "mutable")) (not_mutable env.field)
              (check_authority p.authority_scope env.actor node) tt (sym eq ∙ h) in
          (
            p,
            found,
            ground (arith, eq_iff p.mutability "mutable"),
            (authority_iff p env.actor node).0 rest,
          )
    ],
    λ (p, found, live, owns).
        ground (arith, (authority_iff p env.actor node).1 owns, eq_iff p.mutability "mutable"),
  )

  additive_sound :
      get env.field node.properties ≡ none
      → validate_additive r env node ≡ ok tt
      → MutateAllowed r env node
  unfolding validate_additive known_category
  additive_sound absent h =
      additive absent (λ spec at_type. (additive_spec_iff spec).0 (ground arith))
        (elim (Bool-cases (env.rewrite_category == "")) [
          | inl e ↦ inl ((eq_iff env.rewrite_category "").0 e)
          | inr e ↦ elim (Option-cases (get env.rewrite_category r.rewrite_categories)) [
            | inl missing ↦ absurd (ground arith)
            | inr (wf, found) ↦ inr (wf, found)
          ]
        ])

  additive_complete :
      ((spec : NodeTypeSpec)
        → get node.type_id r.node_types ≡ some spec
        → (p : PropertySpec) × (get env.field spec.properties ≡ some p)
          × (p.mutability ≡ "mutable")
          × Authorised p env.actor node)
      → (env.rewrite_category ≡ "")
        ⊎ ((wf : RewriteCategorySpec) × (get env.rewrite_category r.rewrite_categories ≡ some wf))
      → validate_additive r env node ≡ ok tt
  unfolding validate_additive known_category
  additive_complete declared category = elim (Option-cases (get node.type_id r.node_types)) [
    | inl missing ↦ ground (arith, eq_iff env.rewrite_category "")
    | inr (spec, at_type) ↦
        ground (
          arith,
          (additive_spec_iff spec).1 (declared spec at_type),
          eq_iff env.rewrite_category "",
        )
  ]

  complete : MutateAllowed r env node → validate_mutate r env node ≡ ok tt
  unfolding validate_mutate validate_existing
  complete (existing prop wf present found allows scope declared) = ground (
    arith,
    (contains_mutate_iff wf.allowed_rewrites).1 allows,
    (scope_iff wf.mutate_scope).1 scope,
    declared_complete declared,
  )
  complete (additive absent declared category) =
      rw (absent, validate_mutate) (additive_complete declared category)

  -- `ValidateMUTATE` accepts exactly these MUTATEs. Of a field that is on the node: the category is
  -- known, allows MUTATE and has the field in its scope, if it has one; and where the node's type
  -- declares the field it is not immutable there and, if its scope is "owner", the actor is the owner
  -- that the node names. Of a field that is not: the node's type, where it is known, declares it
  -- mutable, with the same authority, and the category is empty or known.
  pub validate_mutate_iff : (validate_mutate r env node ≡ ok tt) ↔ MutateAllowed r env node
  unfolding validate_mutate
  validate_mutate_iff = (
    λ h. elim (Option-cases (get env.field node.properties)) [
      | inl absent ↦ additive_sound absent (ground arith)
      | inr (prop, present) ↦ existing_sound prop present (ground arith)
    ],
    complete,
  )
