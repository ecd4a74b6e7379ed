-- ===== src/Tests/Grammar.antt =====
-- The grammar at concrete inputs.
use moos_kernel.Prelude.{
  String, ◌≡◌, refl, ◌↔◌, ◌⊎◌, true, none, some, List, [], ◌∷◌, ok, err, get, put, copy_map,
  set_add, is_some, arith,
}
use moos_kernel.Graph.{Urn, Time, Envelope, EvalResult, Node, GraphState}
use moos_kernel.Graph.Index.{bucket, index_insert, index_add_relation_endpoints}
use moos_kernel.Graph.State.{clone, relations_from, relations_to}
use moos_kernel.Fold.{evaluate_at, add_node, add_relation, new_node, new_relation, relation_result}
use moos_kernel.Fold.Effect.{Effect, links}
use moos_kernel.Fold.Program.{evaluate_program_at}
use moos_kernel.Fold.Replay.{replay_loop, replay_applied_at, replay}
use moos_kernel.Operad.{NodeTypeSpec, RewriteCategorySpec, same_type}
use moos_kernel.Operad.Validate.{validate_link, validate_mutate}
use moos_kernel.Operad.Link.{LinkAllowed, validate_link_iff}
use moos_kernel.Operad.Mutate.{MutateAllowed, validate_mutate_iff}
use moos_kernel.Operad.Causal.{search_cycle, validate_causal_acyclic}
use moos_kernel.Operad.Causal.Search.{Reaches}
use moos_kernel.Operad.Causal.Acyclic.{
  cycle_error, validate_causal_acyclic_decides, IsAcyclic, Effect-IsAcyclic,
}
use moos_kernel.Operad.Strata.{parse_stratum}
use moos_kernel.Operad.Occupancy.{
  check_admin_capability, resolve_session_occupant, seat_link, seat_unlink, RotateOccupantResult,
  rotate_session_occupant, count_seats,
}
use moos_kernel.Operad.Occupancy.Admin.{
  IsSession, IsAdmin, Occupies, check_admin_capability_iff, resolve_session_occupant_cases,
}
use moos_kernel.Operad.Occupancy.Rotation.{IsSoleSeat, rotation_seats}
use moos_kernel.Operad.Session.{resolved, resolve_session_for_envelope}
use moos_kernel.Operad.Session.Resolve.{RunsUnder, resolved-RunsUnder}
use moos_kernel.Tests.Samples.{
  adding, joining, setting, entry, task, sample, sample-IsConsistent, seated, seated-IsConsistent,
  couple, couple-IsConsistent, grammar, a_type,
}

validate_link_iff_example :
    (validate_link grammar (joining "r3" "WF05" "t1" "part-of" "t1" "has-part") ≡ ok tt) ↔ (
      (wf : RewriteCategorySpec) × LinkAllowed grammar
        (joining "r3" "WF05" "t1" "part-of" "t1" "has-part")
        wf)
validate_link_iff_example =
    validate_link_iff grammar (joining "r3" "WF05" "t1" "part-of" "t1" "has-part")

validate_mutate_iff_example :
    (validate_mutate grammar (setting "t1" "status" "done" 1) task ≡ ok tt)
    ↔ MutateAllowed grammar (setting "t1" "status" "done" 1) task
validate_mutate_iff_example = validate_mutate_iff grammar (setting "t1" "status" "done" 1) task

-- Causes.
abbrev back_link : Envelope
back_link = joining "c2" "WF21" "bob" "causes" "alice" "caused-by"

sample_live : is_some sample.relations_by_src ≡ true
unfolding replay replay_loop evaluate_at get clone copy_map add_node put add_relation
    index_add_relation_endpoints
sample_live = refl

validate_causal_acyclic_decides_example :
    ((validate_causal_acyclic back_link sample ≡ ok tt) × ¬ Reaches sample "alice" "bob")
    ⊎ (validate_causal_acyclic back_link sample ≡ err (cycle_error back_link))
      × Reaches sample "alice" "bob"
validate_causal_acyclic_decides_example =
    validate_causal_acyclic_decides back_link sample sample-IsConsistent sample_live refl refl

abbrev first_cause : Envelope
first_cause = joining "c1" "WF21" "alice" "causes" "bob" "caused-by"

couple_live : is_some couple.relations_by_src ≡ true
unfolding replay replay_loop evaluate_at get clone copy_map add_node put add_relation
couple_live = refl

couple-IsAcyclic : IsAcyclic couple
unfolding replay replay_loop evaluate_at get clone copy_map add_node put add_relation
couple-IsAcyclic = λ a b (u, rel, found, cause, from, to) p. absurd (ground arith)

first_passes : validate_causal_acyclic first_cause couple ≡ ok tt
unfolding validate_causal_acyclic replay replay_loop evaluate_at get clone copy_map add_node put
    add_relation same_type search_cycle bucket
first_passes = refl

abbrev person : Urn → String → Time → Node
person urn type_id t = record {
  urn = urn;
  type_id = type_id;
  properties = [];
  created_at = t;
  version = 1;
}

first-Effect :
    Effect couple first_cause 3 (add_relation couple first_cause 3) (relation_result "c1")
unfolding replay replay_loop evaluate_at get clone copy_map add_node put new_node replay_applied_at
first-Effect =
    links (person "alice" "user" 1) (person "bob" "agent" 2) refl refl refl refl refl refl refl refl
      refl refl refl

Effect-IsAcyclic_example :
    IsAcyclic (add_relation couple first_cause 3)
    × (is_some (add_relation couple first_cause 3).relations_by_src ≡ true)
Effect-IsAcyclic_example =
    Effect-IsAcyclic couple first_cause 3 (add_relation couple first_cause 3) (relation_result "c1")
      couple-IsConsistent couple_live couple-IsAcyclic first_passes first-Effect

-- Layers.
abbrev layered : GraphState
layered = (replay (entry 1 (adding "v1" "view" []) ∷ entry 2 (adding "t1" "task" []) ∷ [])).0

abbrev downward : Envelope
downward = joining "r1" "WF05" "v1" "part-of" "t1" "has-part"

abbrev spec_of : String → String → NodeTypeSpec
spec_of id stratum = a_type id stratum []

view_there : get "v1" layered.nodes ≡ some (person "v1" "view" 1)
unfolding replay replay_loop evaluate_at get clone copy_map add_node put new_node replay_applied_at
view_there = refl

task_there : get "t1" layered.nodes ≡ some (person "t1" "task" 2)
unfolding replay replay_loop evaluate_at get clone copy_map add_node put new_node replay_applied_at
task_there = refl

view_known : get "view" grammar.node_types ≡ some (spec_of "view" "S4")
unfolding get
view_known = refl

task_known : get "task" grammar.node_types ≡ some (spec_of "task" "S2")
unfolding get
task_known = refl

view_layer : parse_stratum "S4" ≡ some 4
unfolding parse_stratum
view_layer = refl

task_layer : parse_stratum "S2" ≡ some 2
unfolding parse_stratum
task_layer = refl

-- Seats.
check_admin_capability_iff_example :
    (check_admin_capability sample "s1" ≡ true) ↔ IsAdmin sample "s1"
check_admin_capability_iff_example = check_admin_capability_iff sample sample-IsConsistent "s1"

s1-IsSession : IsSession seated "s1"
unfolding replay replay_loop evaluate_at get clone copy_map add_node put add_relation new_node
s1-IsSession = refl

resolve_session_occupant_cases_example :
    ((p : Urn) × (resolve_session_occupant seated "s1" ≡ some p) × Occupies seated "s1" p)
    ⊎ (resolve_session_occupant seated "s1" ≡ none) × ((p : Urn) → ¬ Occupies seated "s1" p)
resolve_session_occupant_cases_example =
    resolve_session_occupant_cases seated seated-IsConsistent "s1" s1-IsSession refl

resolves : resolved (resolve_session_for_envelope seated (adding "t1" "task" [])) ≡ some "s1"
unfolding resolve_session_for_envelope resolved replay replay_loop evaluate_at get clone copy_map
    add_node put add_relation new_node relations_to index_add_relation_endpoints bucket index_insert
    set_add new_relation
resolves = refl

resolved-RunsUnder_example : RunsUnder seated (adding "t1" "task" []) "s1"
resolved-RunsUnder_example =
    resolved-RunsUnder seated seated-IsConsistent (adding "t1" "task" []) "s1" refl resolves

abbrev rotation : RotateOccupantResult
rotation = record {
  envelopes = seat_unlink "alice" "r1" ∷ seat_link "s1" "bob" "alice" "r2" ∷ [];
  prior_relation_urn = "r1";
  prior_occupant = "alice";
}

rotates : rotate_session_occupant seated "s1" "bob" "alice" "r2" ≡ ok rotation
unfolding rotate_session_occupant count_seats relations_from replay replay_loop evaluate_at get
    clone copy_map add_node put add_relation new_node index_add_relation_endpoints bucket
    index_insert set_add new_relation
rotates = refl

no_blank : get "" seated.relations ≡ none
unfolding replay replay_loop evaluate_at get clone copy_map add_node put add_relation
no_blank = refl

rotation_seats_example :
    (s' : GraphState) × (rs : List EvalResult) × (evaluate_program_at
        (λ i. i)
        seated
        rotation.envelopes
        (5 ∷ 6 ∷ [])
      ≡ (s', ok rs))
    × IsSoleSeat s' "s1" "r2" "bob"
rotation_seats_example =
    rotation_seats seated "s1" "bob" "alice" "r2" rotation (λ i. i) (5 ∷ 6 ∷ []) seated-IsConsistent
      no_blank rotates refl
