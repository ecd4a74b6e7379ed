-- ===== src/Operad/Validate.antt =====
-- internal/operad/validate.go: the checks of an envelope against the registry.
use moos_kernel.Prelude.{
  String, Bool, false, not, ◌&&◌, ◌||◌, Option, none, some, List, [], ◌∷◌, ◌==◌, if◌then◌else◌,
  Result, ok, err, ◌>>◌, reject_if, Map, get, is_some, is_empty,
}
use moos_kernel.Graph.{Urn, link, mutate, unlink, Value, str, Property, Node, Envelope}
use moos_kernel.Operad.{
  PropertySpec, NodeTypeSpec, AdditionalPortPair, RewriteCategorySpec, Registry, OperadError,
  unknown_type, unknown_category, not_allowed, no_contract, missing_immutable, undeclared_field,
  not_mutable, out_of_scope, immutable_field, undeclared_pair, uncolored, color_mismatch, not_owner,
  contains_rewrite, contains_string,
}
use moos_kernel.Operad.Colors.{legacy_port_colors}

abbrev pub Check : Type 0
Check = Result OperadError (Unit {0})

-- The loop of `ValidateADD` over the declared properties.
unfoldable pub require_immutable : Map PropertySpec → Map Property → Check
require_immutable [] provided = ok tt
require_immutable ((name, spec) ∷ specs) provided = do
  reject_if (not (is_some (get name provided)) && spec.mutability == "immutable")
      (missing_immutable name)
  require_immutable specs provided

-- `ValidateADD`
unfoldable pub validate_add : Registry → Envelope → Check
validate_add r env = elim (get env.type_id r.node_types) [
  | none ↦ err (unknown_type env.type_id)
  | some spec ↦ require_immutable spec.properties env.properties
]

-- `matchingAdditionalPair`
unfoldable pub matching_additional_pair :
    List AdditionalPortPair → String → String → Option AdditionalPortPair
matching_additional_pair [] src tgt = none
matching_additional_pair (p ∷ ps) src tgt =
    if p.src_port == src && p.tgt_port == tgt then some p else matching_additional_pair ps src tgt

-- The loop of `linkPairDeclared` over the additional pairs.
unfoldable pub additional_declared : List AdditionalPortPair → String → String → Bool
additional_declared [] src tgt = false
additional_declared (p ∷ ps) src tgt =
    p.src_port == src && p.tgt_port == tgt || additional_declared ps src tgt

-- `linkPairDeclared`
unfoldable pub link_pair_declared : RewriteCategorySpec → String → String → Bool
unfolding additional_declared
link_pair_declared wf src tgt =
    wf.src_port == src && wf.tgt_port == tgt || additional_declared wf.additional_port_pairs src tgt

-- `pairsDeclared` of `ValidateLINK`
unfoldable pub pairs_declared : RewriteCategorySpec → Bool
pairs_declared wf =
    not (wf.src_port == "") || not (wf.tgt_port == "") || not (is_empty wf.additional_port_pairs)

-- The color of a port: an absent entry and an empty color are alike.
unfoldable pub port_color : Map String → String → Option String
port_color colors port = elim (get port colors) [
  | none ↦ none
  | some c ↦ if c == "" then none else some c
]

-- The map that `resolvePortColors` consults.
unfoldable pub color_table : Registry → Map String
color_table r = elim r.port_colors [ none ↦ legacy_port_colors | some colors ↦ colors ]

-- `resolvePortColors`; `none` is its error.
unfoldable pub resolve_port_colors : Registry → String → String → Option (String × String)
unfolding port_color color_table
resolve_port_colors r src tgt = elim (port_color (color_table r) src) [
  | none ↦ none
  | some c ↦ elim (port_color (color_table r) tgt) [ none ↦ none | some d ↦ some (c, d) ]
]

-- The color gate at the end of `ValidateLINK`.
unfoldable pub color_gate : Bool → Envelope → Option (String × String) → Check
color_gate declared env none = if declared then err (uncolored env.src_port env.tgt_port) else ok tt
color_gate declared env (some (c, d)) = reject_if (not (c == d)) (color_mismatch c d)

unfoldable pub validate_link_spec : Registry → Envelope → RewriteCategorySpec → Check
unfolding link_pair_declared pairs_declared resolve_port_colors color_gate
validate_link_spec r env wf = do
  reject_if (not (contains_rewrite wf.allowed_rewrites link)) (not_allowed env.rewrite_category)
  reject_if (env.rewrite_category == "WF15" && env.contract_urn == "")
      (no_contract env.rewrite_category)
  reject_if (pairs_declared wf && not (link_pair_declared wf env.src_port env.tgt_port))
      (undeclared_pair env.src_port env.tgt_port)
  color_gate (pairs_declared wf) env (resolve_port_colors r env.src_port env.tgt_port)

-- `ValidateLINK`
unfoldable pub validate_link : Registry → Envelope → Check
unfolding validate_link_spec
validate_link r env = elim (get env.rewrite_category r.rewrite_categories) [
  | none ↦ err (unknown_category env.rewrite_category)
  | some wf ↦ validate_link_spec r env wf
]

-- The case "owner" of `checkAuthority`: a missing owner, or one that is no string, passes.
unfoldable pub check_owner_value : Urn → Value → Check
check_owner_value actor (str owner) = reject_if (not (owner == actor)) (not_owner actor owner)
check_owner_value actor _ = ok tt

unfoldable pub check_owner : Urn → Option Property → Check
unfolding check_owner_value
check_owner actor none = ok tt
check_owner actor (some p) = check_owner_value actor p.value

-- `checkAuthority`; every other scope passes here.
unfoldable pub check_authority : String → Urn → Node → Check
unfolding check_owner
check_authority scope actor node =
    if scope == "owner" then check_owner actor (get "owner_urn" node.properties) else ok tt

unfoldable pub known_category : Registry → Envelope → Check
known_category r env =
    reject_if (not (is_some (get env.rewrite_category r.rewrite_categories)))
      (unknown_category env.rewrite_category)

-- The field is not on the node: its declaration in the node's type decides.
unfoldable pub validate_additive_spec : Envelope → Node → NodeTypeSpec → Check
unfolding check_authority
validate_additive_spec env node spec = elim (get env.field spec.properties) [
  | none ↦ err (undeclared_field env.field)
  | some p ↦ do
    reject_if (not (p.mutability == "mutable")) (not_mutable env.field)
    check_authority p.authority_scope env.actor node
]

unfoldable pub validate_additive : Registry → Envelope → Node → Check
unfolding validate_additive_spec known_category
validate_additive r env node = do
  elim (get node.type_id r.node_types) [
    | none ↦ ok tt
    | some spec ↦ validate_additive_spec env node spec
  ]
  if env.rewrite_category == "" then ok tt else known_category r env

-- The declaration of a field that is on the node.
unfoldable pub validate_declared : Registry → Envelope → Node → Check
unfolding check_authority
validate_declared r env node = elim (get node.type_id r.node_types) [
  | none ↦ ok tt
  | some spec ↦ elim (get env.field spec.properties) [
    | none ↦ ok tt
    | some p ↦ do
      reject_if (p.mutability == "immutable") (immutable_field env.field)
      check_authority p.authority_scope env.actor node
  ]
]

unfoldable pub validate_existing : Registry → Envelope → Node → Check
unfolding validate_declared
validate_existing r env node = elim (get env.rewrite_category r.rewrite_categories) [
  | none ↦ err (unknown_category env.rewrite_category)
  | some wf ↦ do
    reject_if (not (contains_rewrite wf.allowed_rewrites mutate)) (not_allowed env.rewrite_category)
    reject_if (not (is_empty wf.mutate_scope) && not (contains_string wf.mutate_scope env.field))
        (out_of_scope env.field)
    validate_declared r env node
]

-- `ValidateMUTATE`
unfoldable pub validate_mutate : Registry → Envelope → Node → Check
unfolding validate_additive validate_existing
validate_mutate r env node =
    if is_some (get env.field node.properties)
    then validate_existing r env node
    else validate_additive r env node

-- `ValidateUNLINK`
unfoldable pub validate_unlink : Registry → Envelope → Check
validate_unlink r env =
    if env.rewrite_category == ""
    then ok tt
    else elim (get env.rewrite_category r.rewrite_categories) [
      | none ↦ err (unknown_category env.rewrite_category)
      | some wf ↦
          reject_if (not (contains_rewrite wf.allowed_rewrites unlink))
            (not_allowed env.rewrite_category)
    ]
