-- ===== src/Operad/Strata.antt =====
-- internal/graph/stratum.go and `ValidateStrataLink` of internal/operad/validate.go.
use moos_kernel.Prelude.{
  ℕ, String, ◌≡◌, Bool, true, false, not, ◌&&◌, ◌||◌, Option, none, some, List, ◌==◌, ltb, nat_eq,
  if◌then◌else◌, ok, err, ◌>>◌, reject_if, get, is_empty, arith,
}
use moos_kernel.Graph.{TypeId, Node, Envelope, GraphState}
use moos_kernel.Operad.{
  NodeTypeSpec, Registry, strata_direction, src_type_refused, tgt_type_refused, type_allowed,
}
use moos_kernel.Operad.Validate.{Check, matching_additional_pair}

-- `ParseStratum`: the layer, 0 to 4.
unfoldable pub parse_stratum : String → Option ℕ
parse_stratum s =
    if s == "S0" || s == "s0"
    then some 0
    else if s == "S1" || s == "s1"
    then some 1
    else if s == "S2" || s == "s2"
    then some 2
    else if s == "S3" || s == "s3"
    then some 3
    else if s == "S4" || s == "s4"
    then some 4
    else none

-- Rule 1: a projected node may not point to a layer below S3.
unfoldable pub points_down : Option ℕ → Option ℕ → Bool
points_down (some src) (some tgt) = nat_eq src 4 && ltb tgt 3
points_down _ _ = false

-- `len(types) > 0 && !typeAllowed(types, ty)`
unfoldable pub type_refused : List TypeId → TypeId → Bool
type_refused types ty = not (is_empty types) && not (type_allowed types ty)

-- Rules 2 and 3: the types of the category for its primary pair, those of the additional pair else.
unfoldable pub check_end_types : List TypeId → List TypeId → Node → Node → Check
unfolding type_refused
check_end_types src_types tgt_types src tgt = do
  reject_if (type_refused src_types src.type_id) (src_type_refused src.urn src.type_id)
  reject_if (type_refused tgt_types tgt.type_id) (tgt_type_refused tgt.urn tgt.type_id)

unfoldable pub check_category_types : Registry → Envelope → Node → Node → Check
unfolding check_end_types
check_category_types r env src tgt = elim (get env.rewrite_category r.rewrite_categories) [
  | none ↦ ok tt
  | some wf ↦ elim (matching_additional_pair wf.additional_port_pairs env.src_port env.tgt_port) [
    | none ↦ check_end_types wf.src_types wf.tgt_types src tgt
    | some pair ↦ check_end_types pair.src_types pair.tgt_types src tgt
  ]
]

-- The part of `ValidateStrataLink` behind its two lookups of nodes.
unfoldable pub check_strata : Registry → Envelope → Node → Node → Check
unfolding points_down check_category_types
check_strata r env src tgt = elim (get src.type_id r.node_types) [
  | none ↦ ok tt
  | some src_spec ↦ elim (get tgt.type_id r.node_types) [
    | none ↦ ok tt
    | some tgt_spec ↦ do
      reject_if (points_down (parse_stratum src_spec.stratum) (parse_stratum tgt_spec.stratum))
          (strata_direction env.src_urn env.tgt_urn)
      check_category_types r env src tgt
  ]
]

-- `ValidateStrataLink`
unfoldable pub validate_strata_link : Registry → Envelope → GraphState → Check
unfolding check_strata
validate_strata_link r env state = elim (get env.src_urn state.nodes) [
  | none ↦ ok tt
  | some src ↦ elim (get env.tgt_urn state.nodes) [
    | none ↦ ok tt
    | some tgt ↦ check_strata r env src tgt
  ]
]

-- A LINK from a node of a declared type in layer S4 to one of a declared type in S0, S1 or S2 ends in
-- the error of rule 1, whatever the category and its ports.
pub strata_no_projection :
    (r : Registry) (env : Envelope) (state : GraphState) (src tgt : Node)
    (src_spec tgt_spec : NodeTypeSpec) (layer : ℕ)
    → get env.src_urn state.nodes ≡ some src
    → get env.tgt_urn state.nodes ≡ some tgt
    → get src.type_id r.node_types ≡ some src_spec
    → get tgt.type_id r.node_types ≡ some tgt_spec
    → parse_stratum src_spec.stratum ≡ some 4
    → parse_stratum tgt_spec.stratum ≡ some layer
    → ltb layer 3 ≡ true
    → validate_strata_link r env state ≡ err (strata_direction env.src_urn env.tgt_urn)
unfolding validate_strata_link check_strata points_down
strata_no_projection r env state src tgt src_spec tgt_spec layer s t ss ts four low below =
    ground arith
