-- ===== src/Operad/Occupancy.antt =====
-- internal/operad/occupancy.go: who sits in a session, who is an administrator, and how a seat passes
-- from one principal to the next. A walk over a Go set takes the order in which the model lists it.
pub mod Admin
pub mod Counting
pub mod Rotation
use moos_kernel.Prelude.{
  ℕ, zero, suc, String, Bool, true, false, not, ◌&&◌, ◌||◌, Option, none, some, List, [], ◌∷◌, ◌==◌,
  if◌then◌else◌, Result, ok, err, ◌>>=◌, ◌>>◌, reject_if, Map, get, is_some, holds,
}
use moos_kernel.Graph.{Urn, TypeId, link, unlink, Node, Relation, Envelope, no_envelope, GraphState}
use moos_kernel.Graph.State.{relations_from}

abbrev pub superadmin_role : Urn
superadmin_role = "urn:moos:role:superadmin"

-- Both ports of the canonical pair of an occupancy.
abbrev pub is_occupancy : Relation → Bool
is_occupancy rel = rel.src_port == "has-occupant" && rel.tgt_port == "is-occupant-of"

-- `principalTypes`
abbrev pub is_principal : TypeId → Bool
is_principal t = t == "user" || t == "agent" || t == "group"

-- The body of the walk: the principal that a relation seats.
unfoldable pub seats : GraphState → Option Relation → Option Urn
seats state none = none
seats state (some rel) =
    if is_occupancy rel && holds (λ n. is_principal n.type_id) (get rel.tgt_urn state.nodes)
    then some rel.tgt_urn
    else none

unfoldable pub first_seated : GraphState → List Urn → Option Urn
unfolding seats
first_seated state [] = none
first_seated state (u ∷ us) = elim (seats state (get u state.relations)) [
  | none ↦ first_seated state us
  | some p ↦ some p
]

-- `ResolveSessionOccupant`
unfoldable pub resolve_session_occupant : GraphState → Urn → Option Urn
unfolding first_seated
resolve_session_occupant state session =
    if session == ""
    then none
    else if holds (λ n. n.type_id == "session") (get session state.nodes)
    then first_seated state (relations_from state session)
    else none

-- The strict match of a WF02 relation into the superadmin role.
abbrev pub grants_admin : Relation → Bool
grants_admin rel =
    rel.rewrite_category == "WF02"
    && (rel.src_port == "governs" && rel.tgt_port == "governed-by")
    && rel.tgt_urn == superadmin_role

unfoldable pub any_grant : GraphState → List Urn → Bool
any_grant state [] = false
any_grant state (u ∷ us) =
    holds (λ rel. grants_admin rel) (get u state.relations) || any_grant state us

-- The last two tests of `CheckAdminCapability`, on the principal.
unfoldable pub principal_is_admin : GraphState → Urn → Bool
unfolding any_grant
principal_is_admin state principal =
    holds (λ n. is_principal n.type_id) (get principal state.nodes)
    && any_grant state (relations_from state principal)

-- `CheckAdminCapability`
unfoldable pub check_admin_capability : GraphState → Urn → Bool
unfolding resolve_session_occupant principal_is_admin
check_admin_capability state actor =
    if actor == ""
    then false
    else if not (is_some (get actor state.nodes))
    then false
    else if not (is_some (get superadmin_role state.nodes))
    then false
    else if holds (λ n. n.type_id == "session") (get actor state.nodes)
    then elim (resolve_session_occupant state actor) [
      | none ↦ false
      | some occupant ↦ principal_is_admin state occupant
    ]
    else principal_is_admin state actor

pub record RotateOccupantResult : Type 0 where
  pub envelopes : List Envelope
  pub prior_relation_urn : Urn
  pub prior_occupant : Urn

pub data RotateError : Type 0 where
  empty_session empty_occupant empty_relation empty_actor : RotateError
  session_not_found not_a_session occupant_not_found not_a_principal : Urn → RotateError
  too_many_occupants already_seated relation_taken : Urn → RotateError

-- What the walk over the session's relations counts, up to its break at the second one.
pub data Seats : Type 0 where
  empty : Seats
  one : Relation → Seats
  many : Seats

abbrev pub count_seat : Seats → Relation → Seats
count_seat empty rel = one rel
count_seat (one old) rel = many
count_seat many rel = many

unfoldable pub count_seats : GraphState → Seats → List Urn → Seats
count_seats state seen [] = seen
count_seats state seen (u ∷ us) =
    count_seats state
      (elim (get u state.relations) [
        | none ↦ seen
        | some rel ↦ if is_occupancy rel then count_seat seen rel else seen
      ])
      us

abbrev pub seat_link : Urn → Urn → Urn → Urn → Envelope
seat_link session occupant actor relation = record no_envelope {
  rewrite_type = link;
  actor = actor;
  relation_urn = relation;
  src_urn = session;
  src_port = "has-occupant";
  tgt_urn = occupant;
  tgt_port = "is-occupant-of";
  rewrite_category = "WF19";
}

abbrev pub seat_unlink : Urn → Urn → Envelope
seat_unlink actor relation = record no_envelope {
  rewrite_type = unlink;
  actor = actor;
  relation_urn = relation;
  rewrite_category = "WF19";
}

-- The end of `RotateSessionOccupant`, behind the walk.
unfoldable pub rotate_seats :
    GraphState → Seats → Urn → Urn → Urn → Urn → Result RotateError RotateOccupantResult
rotate_seats state many session occupant actor relation = err (too_many_occupants session)
rotate_seats state empty session occupant actor relation = do
  reject_if (is_some (get relation state.relations)) (relation_taken relation)
  ok (record {
    envelopes = seat_link session occupant actor relation ∷ [];
    prior_relation_urn = "";
    prior_occupant = "";
  })
rotate_seats state (one prior) session occupant actor relation = do
  reject_if (prior.tgt_urn == occupant) (already_seated session)
  reject_if (is_some (get relation state.relations)) (relation_taken relation)
  ok (record {
    envelopes = seat_unlink actor prior.urn ∷ seat_link session occupant actor relation ∷ [];
    prior_relation_urn = prior.urn;
    prior_occupant = prior.tgt_urn;
  })

-- `RotateSessionOccupant`
unfoldable pub rotate_session_occupant :
    GraphState → Urn → Urn → Urn → Urn → Result RotateError RotateOccupantResult
unfolding rotate_seats
rotate_session_occupant state session occupant actor relation = do
  reject_if (session == "") empty_session
  reject_if (occupant == "") empty_occupant
  reject_if (relation == "") empty_relation
  reject_if (actor == "") empty_actor
  reject_if (not (is_some (get session state.nodes))) (session_not_found session)
  reject_if (not (holds (λ n. n.type_id == "session") (get session state.nodes)))
      (not_a_session session)
  reject_if (not (is_some (get occupant state.nodes))) (occupant_not_found occupant)
  reject_if (not (holds (λ n. is_principal n.type_id) (get occupant state.nodes)))
      (not_a_principal occupant)
  rotate_seats state (count_seats state empty (relations_from state session)) session occupant actor
      relation
