-- ===== src/Fold.antt =====
-- internal/fold: one rewrite applied to the state, and its errors.
pub mod Effect
pub mod Evaluate
pub mod Identity
pub mod Versions
pub mod Program
pub mod Atomic
pub mod Replay
pub mod Log
pub mod Halt
pub mod Duplicates
use moos_kernel.Prelude.{
  ℕ, ◌+◌, ◌%◌, ◌^◌, String, Bool, true, false, not, ◌&&◌, ◌||◌, Option, none, some, ◌==◌, nat_eq,
  if◌then◌else◌, Result, ok, err, ◌>>=◌, ◌>>◌, reject_if, Map, get, put, delete, is_some, copy_map,
}
use moos_kernel.Graph.{
  Urn, Time, Int64, RewriteType, add, link, mutate, unlink, other, Value, Property, immutable, Node,
  Relation, Envelope, EvalResult, GraphState,
}
use moos_kernel.Graph.Index.{
  index_add_node_by_type, index_add_relation_endpoints, index_remove_relation_endpoints,
}
use moos_kernel.Graph.State.{clone}

-- The sentinels of errors.go, with the URN that the message names; `errors.Is` tells them apart by
-- their constructor.
pub data FoldError : Type 0 where
  node_exists node_not_found relation_exists relation_not_found : Urn → FoldError
  immutable_property field_not_in_scope : String → Urn → FoldError
  version_conflict : Int64 → Int64 → FoldError
  invalid_rewrite_type : String → FoldError
  missing_actor missing_node_urn missing_type_id missing_relation_urn missing_src_tgt : FoldError
  missing_target_field wf15_missing_contract : FoldError

-- `validateEnvelopeStructure`
unfoldable pub validate_fields : RewriteType → Envelope → Result FoldError (Unit {0})
validate_fields add env = do
  reject_if (env.node_urn == "") missing_node_urn
  reject_if (env.type_id == "") missing_type_id
validate_fields link env = do
  reject_if (env.relation_urn == "") missing_relation_urn
  reject_if (env.src_urn == "" || env.tgt_urn == "") missing_src_tgt
validate_fields mutate env =
    reject_if (env.target_urn == "" || env.field == "") missing_target_field
validate_fields unlink env = reject_if (env.relation_urn == "") missing_relation_urn
validate_fields (other t) env = ok tt

unfoldable pub validate_envelope_structure : Envelope → Result FoldError (Unit {0})
unfolding validate_fields
validate_envelope_structure env = do
  reject_if (env.actor == "") missing_actor
  validate_fields env.rewrite_type env

abbrev pub Outcome : Type 0
Outcome = Result FoldError (GraphState × EvalResult)

abbrev pub node_result : Urn → EvalResult
node_result urn = record { affected_node_urn = urn; affected_relation_urn = "" }

abbrev pub relation_result : Urn → EvalResult
relation_result urn = record { affected_node_urn = ""; affected_relation_urn = urn }

unfoldable pub new_node : Envelope → Time → Node
new_node env created_at = record {
  urn = env.node_urn;
  type_id = env.type_id;
  properties = copy_map (λ p. p) env.properties;
  created_at = created_at;
  version = 1;
}

unfoldable pub add_node : GraphState → Envelope → Time → GraphState
add_node state env created_at = record state {
  nodes = put env.node_urn (new_node env created_at) state.nodes;
  nodes_by_type = index_add_node_by_type state.nodes_by_type env.node_urn env.type_id;
}

unfoldable pub apply_add : GraphState → Envelope → Time → Outcome
apply_add state env created_at = do
  reject_if (is_some (get env.node_urn state.nodes)) (node_exists env.node_urn)
  ok (add_node state env created_at, node_result env.node_urn)

unfoldable pub new_relation : Envelope → Time → Relation
new_relation env created_at = record {
  urn = env.relation_urn;
  rewrite_category = env.rewrite_category;
  src_urn = env.src_urn;
  src_port = env.src_port;
  tgt_urn = env.tgt_urn;
  tgt_port = env.tgt_port;
  contract_urn = env.contract_urn;
  created_at = created_at;
}

unfoldable pub add_relation : GraphState → Envelope → Time → GraphState
add_relation state env created_at =
    let ends =
      index_add_relation_endpoints state.relations_by_src state.relations_by_tgt env.relation_urn
        env.src_urn env.tgt_urn in
    record state {
      relations = put env.relation_urn (new_relation env created_at) state.relations;
      relations_by_src = ends.0;
      relations_by_tgt = ends.1;
    }

unfoldable pub apply_link : GraphState → Envelope → Time → Outcome
apply_link state env created_at = do
  reject_if (not (is_some (get env.src_urn state.nodes))) (node_not_found env.src_urn)
  reject_if (not (is_some (get env.tgt_urn state.nodes))) (node_not_found env.tgt_urn)
  reject_if (is_some (get env.relation_urn state.relations)) (relation_exists env.relation_urn)
  reject_if (env.rewrite_category == "WF15" && env.contract_urn == "") wf15_missing_contract
  ok (add_relation state env created_at, relation_result env.relation_urn)

-- An int64 wraps around.
abbrev pub next_version : Int64 → Int64
next_version v = (v + 1) % 2 ^ 64

-- The property that a MUTATE writes: the new value under the metadata of `meta`.
unfoldable pub with_value : Property → Value → Property
with_value meta value = record meta { value = value }

unfoldable pub write_property : GraphState → Envelope → Node → Property → GraphState
unfolding with_value
write_property state env node meta = record state {
  nodes =
      put env.target_urn
        (record node {
          version = next_version node.version;
          properties = put env.field (with_value meta env.new_value) node.properties;
        })
        state.nodes;
}

-- The field is not on the node yet: the specification that the runtime injected is used.
unfoldable pub mutate_additive : GraphState → Envelope → Node → Outcome
mutate_additive state env node = elim env.property_spec [
  | none ↦ err (field_not_in_scope env.field env.target_urn)
  | some spec ↦ ok (write_property state env node spec, node_result env.target_urn)
]

unfoldable pub mutate_existing : GraphState → Envelope → Node → Property → Outcome
mutate_existing state env node prop = do
  reject_if (immutable prop) (immutable_property env.field env.target_urn)
  reject_if (not (nat_eq env.expected_version 0) && not (nat_eq node.version env.expected_version))
      (version_conflict env.expected_version node.version)
  ok (write_property state env node prop, node_result env.target_urn)

unfoldable pub mutate_node : GraphState → Envelope → Node → Outcome
unfolding mutate_additive mutate_existing
mutate_node state env node = elim (get env.field node.properties) [
  | none ↦ mutate_additive state env node
  | some prop ↦ mutate_existing state env node prop
]

unfoldable pub apply_mutate : GraphState → Envelope → Outcome
unfolding mutate_node
apply_mutate state env = elim (get env.target_urn state.nodes) [
  | none ↦ err (node_not_found env.target_urn)
  | some node ↦ mutate_node state env node
]

unfoldable pub remove_relation : GraphState → Envelope → Relation → GraphState
remove_relation state env existing =
    let ends =
      index_remove_relation_endpoints state.relations_by_src state.relations_by_tgt env.relation_urn
        existing.src_urn existing.tgt_urn in
    record state {
      relations = delete env.relation_urn state.relations;
      relations_by_src = ends.0;
      relations_by_tgt = ends.1;
    }

unfoldable pub apply_unlink : GraphState → Envelope → Outcome
apply_unlink state env = elim (get env.relation_urn state.relations) [
  | none ↦ err (relation_not_found env.relation_urn)
  | some existing ↦ ok (remove_relation state env existing, relation_result env.relation_urn)
]

unfoldable pub dispatch : RewriteType → GraphState → Envelope → Time → Outcome
unfolding apply_add apply_link apply_mutate apply_unlink
dispatch add state env ts = apply_add state env ts
dispatch link state env ts = apply_link state env ts
dispatch mutate state env ts = apply_mutate state env
dispatch unlink state env ts = apply_unlink state env
dispatch (other t) state env ts = err (invalid_rewrite_type t)

-- `evaluateInPlace`. Each handler writes only after its last check, so an error leaves the state
-- that the pointer names as it was, and the model returns no state with it.
unfoldable pub evaluate_in_place : GraphState → Envelope → Time → Outcome
unfolding validate_envelope_structure dispatch
evaluate_in_place state env applied_at = do
  validate_envelope_structure env
  dispatch env.rewrite_type state env applied_at

-- What `EvaluateAt` returns beside the state: the result or the error.
abbrev pub finish : GraphState → Outcome → GraphState × Result FoldError EvalResult
finish state (ok (next, result)) = (next, ok result)
finish state (err e) = (state, err e)

-- `EvaluateAt`
unfoldable pub evaluate_at : GraphState → Envelope → Time → GraphState × Result FoldError EvalResult
unfolding evaluate_in_place
evaluate_at state env applied_at = finish state (evaluate_in_place (clone state) env applied_at)
