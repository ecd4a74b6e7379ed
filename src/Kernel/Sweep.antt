-- ===== src/Kernel/Sweep.antt =====
-- internal/kernel/sweep.go: the timed sweep over the pending t_hooks.
use moos_kernel.Prelude.{
  ℕ, suc, ◌+◌, ◌%◌, ◌^◌, String, Bool, true, false, not, ◌&&◌, ◌||◌, Option, none, some, List, [],
  ◌∷◌, ◌==◌, if◌then◌else◌, get, Result, ok, err,
}
use moos_kernel.Graph.{Urn, Time, Int64, Value, null, Node, Envelope, GraphState}
use moos_kernel.Graph.State.{clone, nodes_of_type}
use moos_kernel.Reactive.{prop_str}
use moos_kernel.Reactive.Predicate.{evaluate_thook_predicate}
use moos_kernel.TDay.{t_day}
use moos_kernel.Kernel.{Host, Runtime}
use moos_kernel.Kernel.Drift.{Hdc, apply_program_annotated}
use moos_kernel.Kernel.Staging.{Texts, tick_proposal_urn, stage_hook_proposal_pair}
pub mod Batch
pub mod Walk
pub mod Landing
pub mod Claims
pub mod Tick
pub mod Settles

-- A property that is there with a value that is not nil.
unfoldable pub value_of : Node → String → Option Value
value_of node name = elim (get name node.properties) [
  | none ↦ none
  | some p ↦ elim p.value [ null ↦ none | v ↦ some v ]
]

-- `firingStateOf`, and the test that lets a hook fire.
unfoldable pub is_pending : Node → Bool
is_pending hook = prop_str hook "firing_state" == "" || prop_str hook "firing_state" == "pending"

-- The pair for one hook, for the counter `n`.
unfoldable pub hook_pair : Texts → Int64 → Urn → Int64 → Time → Int64 → Node → Envelope × Envelope
hook_pair texts current_t actor base_seq now n hook =
    stage_hook_proposal_pair texts hook current_t actor
      (tick_proposal_urn texts hook.urn current_t base_seq n) (texts.format now)
      (value_of hook "react_template")

-- The tests of the loop on one hook.
unfoldable pub is_due : (Value → String) → GraphState → Int64 → Node → Bool
unfolding is_pending
is_due print_value state current_t hook = is_pending hook && (elim (value_of hook "predicate") [
  | none ↦ false
  | some pred ↦ evaluate_thook_predicate print_value pred state current_t
])

module _ (print_value : Value → String) (texts : Texts) where
  -- The loop of `SweepOnce`. The counter goes up by one before the URN and by one after the pair.
  unfoldable pub sweep_hooks :
      GraphState → Int64 → Urn → Int64 → Time → Int64 → List Urn → List Envelope
  unfolding hook_pair
  sweep_hooks state current_t actor base_seq now emitted [] = []
  sweep_hooks state current_t actor base_seq now emitted (u ∷ us) =
      let skipped = sweep_hooks state current_t actor base_seq now emitted us in
      let rest = sweep_hooks state current_t actor base_seq now ((emitted + 2) % 2 ^ 64) us in
      elim (get u state.nodes) [
        | none ↦ skipped
        | some hook ↦
            let pair = hook_pair texts current_t actor base_seq now ((emitted + 1) % 2 ^ 64) hook in
            if is_due print_value state current_t hook then pair.0 ∷ pair.1 ∷ rest else skipped
      ]

  -- `SweepOnce`
  unfoldable pub sweep_once : GraphState → Int64 → Urn → Int64 → Time → List Envelope
  sweep_once state current_t actor base_seq now =
      sweep_hooks state current_t actor base_seq now 0 (nodes_of_type state "t_hook")

-- `sweepActorLocked`, for the field `sweepActor` of the runtime.
unfoldable pub sweep_actor_or_default : Urn → Urn
sweep_actor_or_default actor = if actor == "" then "urn:moos:kernel:sweep" else actor

module _ {S : Type 0} (host : Host S) (texts : Texts) where
  -- The batch of a tick: the state is a copy, and the clock is read for the day and for the stamp.
  unfoldable pub tick_batch : Urn → Runtime S → List Envelope
  unfolding sweep_actor_or_default
  tick_batch actor rt =
      sweep_once host.print_value texts (clone rt.state) (t_day (host.time_at rt.readings))
        (sweep_actor_or_default actor) rt.log_seq (host.time_at (suc rt.readings))

module _ {S : Type 0} (host : Host S) (texts : Texts) (hdc : Option Hdc) where
  -- `SweepTick`, for that field: a batch that fails is dropped, and the next tick tries again.
  unfoldable pub sweep_tick : Urn → Runtime S → Runtime S
  unfolding tick_batch
  sweep_tick actor rt =
      let read = record rt { readings = suc (suc rt.readings) } in
      elim (tick_batch host texts actor rt) [
        | [] ↦ read
        | env ∷ rest ↦ (apply_program_annotated host texts hdc read (env ∷ rest)).0
      ]
