-- ===== src/Operad/Session.antt =====
-- internal/operad/session_context.go: the session that an envelope runs under, the envelopes of the
-- system itself, and the rewrites that only an administrator may make.
pub mod Resolve
use text.Mathlib.Text.{starts_with}
use moos_kernel.Prelude.{
  String, Bool, true, false, not, ◌&&◌, ◌||◌, Option, none, some, List, [], ◌∷◌, ◌++◌, ◌==◌,
  if◌then◌else◌, Map, get, is_some, holds,
}
use moos_kernel.Graph.{
  Urn, TypeId, RewriteType, add, link, mutate, unlink, other, Node, Relation, Envelope, GraphState,
}
use moos_kernel.Graph.State.{relations_from, relations_to}
use moos_kernel.Operad.{NodeTypeSpec, Registry}
use moos_kernel.Operad.Occupancy.{is_occupancy, resolve_session_occupant}

-- `ResolveSessionResult`: its kind, with the fields that the kind fills.
pub data Resolution : Type 0 where
  explicit inferred actor_is_session explicit_mismatch absent : Urn → Resolution
  ambiguous : List Urn → Resolution

-- `sessionHasAnyOccupant`
unfoldable pub session_has_any_occupant : GraphState → Urn → Bool
session_has_any_occupant state session = is_some (resolve_session_occupant state session)

unfoldable pub any_seat : GraphState → Urn → List Urn → Bool
any_seat state actor [] = false
any_seat state actor (u ∷ us) =
    holds (λ rel. is_occupancy rel && rel.tgt_urn == actor) (get u state.relations)
    || any_seat state actor us

-- `sessionHasOccupantTarget`
unfoldable pub session_has_occupant_target : GraphState → Urn → Urn → Bool
unfolding any_seat
session_has_occupant_target state session actor =
    any_seat state actor (relations_from state session)

-- The session at the other end of an occupancy, if the relation is one and starts at a session.
unfoldable pub seat_source : GraphState → Option Relation → List Urn
seat_source state none = []
seat_source state (some rel) =
    if is_occupancy rel && holds (λ n. n.type_id == "session") (get rel.src_urn state.nodes)
    then rel.src_urn ∷ []
    else []

unfoldable pub seat_sources : GraphState → List Urn → List Urn
unfolding seat_source
seat_sources state [] = []
seat_sources state (u ∷ us) = seat_source state (get u state.relations) ++ seat_sources state us

-- `sessionsOccupyingActor`
unfoldable pub sessions_occupying_actor : GraphState → Urn → List Urn
unfolding seat_sources
sessions_occupying_actor state actor = seat_sources state (relations_to state actor)

-- The switch on the number of candidates.
unfoldable pub by_candidates : List Urn → Resolution
by_candidates [] = absent ""
by_candidates (u ∷ []) = inferred u
by_candidates (u ∷ v ∷ us) = ambiguous (u ∷ v ∷ us)

-- `ResolveSessionForEnvelope`
unfoldable pub resolve_session_for_envelope : GraphState → Envelope → Resolution
unfolding session_has_any_occupant session_has_occupant_target sessions_occupying_actor
    by_candidates
resolve_session_for_envelope state env =
    if holds (λ n. n.type_id == "session") (get env.actor state.nodes)
    then if not (session_has_any_occupant state env.actor)
      then absent env.actor
      else actor_is_session env.actor
    else if not (env.session_urn == "")
    then if not (holds (λ n. n.type_id == "session") (get env.session_urn state.nodes))
      then explicit_mismatch env.session_urn
      else if not (session_has_occupant_target state env.session_urn env.actor)
      then explicit_mismatch env.session_urn
      else explicit env.session_urn
    else by_candidates (sessions_occupying_actor state env.actor)

-- The three kinds that carry a session in which the envelope may run.
unfoldable pub resolved : Resolution → Option Urn
resolved (explicit u) = some u
resolved (inferred u) = some u
resolved (actor_is_session u) = some u
resolved (explicit_mismatch u) = none
resolved (absent u) = none
resolved (ambiguous us) = none

-- `isKernelActor`
abbrev pub is_kernel_actor : Urn → Bool
is_kernel_actor actor = starts_with actor "urn:moos:kernel:"

-- `isInfrastructureType`
abbrev pub is_infrastructure_type : TypeId → Bool
is_infrastructure_type t = t == "user" || t == "workstation" || t == "kernel"

-- `SystemInternalEnvelope`
unfoldable pub system_internal_envelope : Envelope → Bool
system_internal_envelope env =
    is_kernel_actor env.actor
    || elim env.rewrite_type [ add ↦ is_infrastructure_type env.type_id | _ ↦ false ]

-- `ontologyGovernedTypes`
abbrev pub is_ontology_governed : TypeId → Bool
is_ontology_governed t =
    t == "system_instruction"
    || t == "gate"
    || t == "twin_link"
    || t == "transport_binding"
    || t == "kernel"

-- The stored half of `authorityScopeForField`.
unfoldable pub stored_scope : Node → String → Option String
stored_scope node field = elim (get field node.properties) [
  | none ↦ none
  | some prop ↦ if not (prop.authority_scope == "") then some prop.authority_scope else none
]

-- `authorityScopeForField`
unfoldable pub authority_scope_for_field : Registry → Node → String → Option String
unfolding stored_scope
authority_scope_for_field r node field = elim (get node.type_id r.node_types) [
  | none ↦ stored_scope node field
  | some spec ↦ elim (get field spec.properties) [
    | none ↦ stored_scope node field
    | some pspec ↦ some pspec.authority_scope
  ]
]

unfoldable pub mutates_admin_scope : Registry → Node → String → Bool
unfolding authority_scope_for_field
mutates_admin_scope r node field =
    is_ontology_governed node.type_id
    || holds (λ scope. scope == "kernel") (authority_scope_for_field r node field)

-- `AdminScopeRewrite`, for a registry that is not nil.
unfoldable pub admin_scope_rewrite : Registry → Envelope → GraphState → Bool
unfolding mutates_admin_scope
admin_scope_rewrite r env state = elim env.rewrite_type [
  | add ↦ is_ontology_governed env.type_id
  | mutate ↦ elim (get env.target_urn state.nodes) [
    | none ↦ true
    | some node ↦ mutates_admin_scope r node env.field
  ]
  | _ ↦ false
]
