-- ===== src/Tests/Hooks.antt =====
-- Hooks, predicates, sweeps and the whole `Apply` at concrete inputs.
use moos_kernel.Prelude.{
  ◌+◌, ◌≡◌, ◌⊎◌, refl, true, false, none, some, List, [], ◌∷◌, Map, ok, err, get, put, copy_map,
}
use moos_kernel.Graph.{
  Urn, null, str, int, array, object, nil, cons, end, field, Property, Node, Envelope, Fields,
  EvalResult, PersistedRewrite, GraphState,
}
use moos_kernel.Graph.Consistent.{IsConsistent}
use moos_kernel.Graph.State.{clone}
use moos_kernel.Fold.{node_result, evaluate_at, add_node, new_node}
use moos_kernel.Fold.Replay.{replay_loop, replay, replay_applied_at}
use moos_kernel.Fold.Log.{replayed-IsConsistent}
use moos_kernel.Reactive.Predicate.{evaluate_map}
use moos_kernel.Reactive.Predicate.Fires.{Fires}
use moos_kernel.Reactive.Engine.{Firing, t_hook, Json, evaluate_detailed}
use moos_kernel.Reactive.Engine.Fired.{Fired}
use moos_kernel.TDay.{t_day}
use moos_kernel.Kernel.{Host, Runtime, KernelError}
use moos_kernel.Kernel.Staging.{Texts}
use moos_kernel.Kernel.Drift.{apply_reacting, apply_program_annotated}
use moos_kernel.Kernel.Sweep.{is_due, sweep_once, sweep_tick, tick_batch}
use moos_kernel.Kernel.Sweep.Batch.{HasMark, IsProposed}
use moos_kernel.Kernel.Sweep.Settles.{sweep_proposes, sweep_tick_proposes}
use moos_kernel.Kernel.Folded.{IsFolded}
use moos_kernel.Kernel.Folded.Restart.{mem_store, mem_store-IsStore}
use moos_kernel.Kernel.Folded.Writers.{Applied}
use moos_kernel.Kernel.Folded.Whole.{apply_reacting-Applied}
use moos_kernel.Tests.Samples.{a_property, adding, entry}

-- A host whose clock stands on day 28.
abbrev host : Host (List PersistedRewrite)
host = record { store = mem_store; time_at = λ n. 63900000000000000000 + n; print_value = λ v. "" }

abbrev texts : Texts
texts = record { decimal = λ n. "7"; format = λ t. "now"; to_json = λ env. some (str env.node_urn) }

abbrev json : Json
json = record {
  marshal = λ v. some "";
  unmarshal_envelope = λ s. some (adding "t9" "task" []);
  unmarshal_shape = λ s. none;
}

-- From day 5 on, and on no other condition.
abbrev from_day_5 : Fields
from_day_5 = field "kind" (str "fires_at") (field "t" (int 5) end)

abbrev all_from_day_5 : Fields
all_from_day_5 =
    field "kind" (str "all_of") (field "predicates" (array (cons (object from_day_5) nil)) end)

abbrev hook_properties : Map Property
hook_properties =
    ("firing_state", a_property "pending" "mutable")
    ∷ ("status", a_property "active" "mutable")
    ∷ ("owner_urn", a_property "bob" "immutable")
    ∷ ("predicate", record (a_property "" "immutable") { value = object all_from_day_5 })
    ∷ ("react_template", a_property "template" "immutable")
    ∷ []

abbrev hook_log : List PersistedRewrite
hook_log =
    entry 1 (adding "bob" "agent" []) ∷ entry 2 (adding "urn:hook:h1" "t_hook" hook_properties) ∷ []

abbrev hooked_state : GraphState
hooked_state = (replay hook_log).0

hooked_state-IsConsistent : IsConsistent hooked_state
hooked_state-IsConsistent = replayed-IsConsistent hook_log

abbrev hook : Node
hook = record {
  urn = "urn:hook:h1";
  type_id = "t_hook";
  properties = hook_properties;
  created_at = 2;
  version = 1;
}

hook_there : get "urn:hook:h1" hooked_state.nodes ≡ some hook
unfolding replay replay_loop evaluate_at get clone copy_map add_node put new_node replay_applied_at
hook_there = refl

abbrev running : Runtime (List PersistedRewrite)
running = record {
  state = hooked_state;
  log = hook_log;
  stored = hook_log;
  registry = none;
  log_seq = 2;
  subscribers = [];
  readings = 0;
}

hook_replays : replay hook_log ≡ (hooked_state, none)
unfolding replay replay_loop evaluate_at get clone copy_map add_node put
hook_replays = refl

running-IsFolded : IsFolded host running
running-IsFolded = record { folded = hook_replays; durable = refl }

-- Predicates.
evaluates : evaluate_map host.print_value hooked_state 28 "" all_from_day_5 ≡ true
unfolding evaluate_map moos_kernel.Reactive.Predicate.predicate_kind
    moos_kernel.Reactive.Predicate.field_of moos_kernel.Reactive.Predicate.every
    moos_kernel.Reactive.Predicate.time_reached moos_kernel.Reactive.Predicate.number
evaluates = refl

too_early : evaluate_map host.print_value hooked_state 4 "" all_from_day_5 ≡ false
unfolding evaluate_map moos_kernel.Reactive.Predicate.predicate_kind
    moos_kernel.Reactive.Predicate.field_of moos_kernel.Reactive.Predicate.every
    moos_kernel.Reactive.Predicate.time_reached moos_kernel.Reactive.Predicate.number
too_early = refl

-- The engine.
abbrev fired : Firing
fired = record { proposal = adding "t9" "task" []; source_hook = "urn:hook:h1"; kind = t_hook }

engine_runs :
    evaluate_detailed host.print_value json hooked_state (entry 3 (adding "bob" "agent" []))
    ≡ fired ∷ []
unfolding evaluate_detailed replay replay_loop evaluate_at get clone copy_map add_node put new_node
    moos_kernel.Reactive.prop_str moos_kernel.Reactive.Engine.thook_event_shape_matches
    moos_kernel.Reactive.Engine.thook_guard_passes
engine_runs = refl

-- The sweep.
due : is_due host.print_value hooked_state 28 hook ≡ true
unfolding is_due moos_kernel.Reactive.prop_str get moos_kernel.Kernel.Sweep.value_of
    moos_kernel.Reactive.Predicate.evaluate_thook_predicate
    moos_kernel.Reactive.Predicate.predicate_kind moos_kernel.Reactive.Predicate.field_of
    moos_kernel.Reactive.Predicate.every moos_kernel.Reactive.Predicate.time_reached
    moos_kernel.Reactive.Predicate.number
due = refl

abbrev batch : List Envelope
batch = sweep_once host.print_value texts hooked_state 28 "urn:moos:kernel:sweep" 2 7

lands : apply_program_annotated host texts none running batch ≡ (
  (apply_program_annotated host texts none running batch).0,
  ok (node_result "urn:moos:proposal:kernel.h1-t7-tick7-n7" ∷ node_result "urn:hook:h1" ∷ []),
)
unfolding apply_program_annotated sweep_once replay replay_loop evaluate_at get clone copy_map
    add_node put new_node moos_kernel.Kernel.Sweep.sweep_hooks moos_kernel.Graph.State.nodes_of_type
    moos_kernel.Graph.Index.index_add_node_by_type moos_kernel.Graph.Index.bucket
    moos_kernel.Graph.Index.index_insert moos_kernel.Prelude.set_add is_due
    moos_kernel.Reactive.prop_str moos_kernel.Kernel.Sweep.value_of
    moos_kernel.Reactive.Predicate.evaluate_thook_predicate
    moos_kernel.Reactive.Predicate.predicate_kind moos_kernel.Reactive.Predicate.field_of
    moos_kernel.Reactive.Predicate.every moos_kernel.Reactive.Predicate.time_reached
    moos_kernel.Reactive.Predicate.number moos_kernel.Kernel.Liveness.check_liveness_m11
    moos_kernel.Kernel.Commit.validate moos_kernel.Kernel.Staging.stage_hook_proposal_pair
    moos_kernel.Kernel.Staging.proposal_urn moos_kernel.Kernel.Liveness.check_liveness_m12
    moos_kernel.Kernel.Apply.check_link moos_kernel.Kernel.Gates.check_gates
    moos_kernel.Fold.Program.evaluate_program_at moos_kernel.Fold.Program.run_steps
    moos_kernel.Fold.evaluate_in_place moos_kernel.Graph.immutable
lands = refl

sweep_proposes_example :
    IsProposed (apply_program_annotated host texts none running batch).0.state "urn:hook:h1"
    × (¬ HasMark "urn:hook:h1" (
        sweep_once host.print_value texts
          (apply_program_annotated host texts none running batch).0.state
          29
          "urn:moos:kernel:sweep"
          4
          8))
sweep_proposes_example =
    sweep_proposes host mem_store-IsStore texts none running
      (apply_program_annotated host texts none running batch).0
      (node_result "urn:moos:proposal:kernel.h1-t7-tick7-n7" ∷ node_result "urn:hook:h1" ∷ [])
      hooked_state 28 "urn:moos:kernel:sweep" 2 7 "urn:hook:h1" hook 29 "urn:moos:kernel:sweep" 4 8
      running-IsFolded hooked_state-IsConsistent hook_there refl due lands

day : t_day (host.time_at 0) ≡ 28
unfolding t_day
day = refl

due_today :
    is_due host.print_value running.state (t_day (host.time_at running.readings)) hook ≡ true
due_today = rw day due

sweep_tick_proposes_example :
    IsFolded host (sweep_tick host texts none "" running)
    × (((e : KernelError) × ((apply_program_annotated host texts none
              (record running { readings = 2 })
              (tick_batch host texts "" running)).1
            ≡ err e)
          × ((sweep_tick host texts none "" running).state ≡ hooked_state)
          × ((sweep_tick host texts none "" running).log ≡ hook_log))
        ⊎ IsProposed (sweep_tick host texts none "" running).state "urn:hook:h1")
sweep_tick_proposes_example =
    sweep_tick_proposes host mem_store-IsStore texts none "" running "urn:hook:h1" hook
      running-IsFolded hook_there refl due_today

-- `Apply` with its reactions.
apply_reacting-Applied_example :
    Applied host mem_store-IsStore running (adding "t1" "task" []) true (
      apply_reacting host texts json none "urn:moos:kernel:sweep" running
        (adding "t1" "task" [])
        true)
apply_reacting-Applied_example =
    apply_reacting-Applied host mem_store-IsStore texts json none "urn:moos:kernel:sweep" running
      (adding "t1" "task" []) true running-IsFolded
