-- ===== src/Kernel/Reactions.antt =====
-- internal/kernel/runtime.go, `runReactive` and `stageEventHookLocked`: what the kernel does with the firings of the reactive engine.
use moos_kernel.Prelude.{
  ℕ, suc, Bool, true, false, not, ◌&&◌, none, some, List, [], ◌∷◌, ◌==◌, if◌then◌else◌, get,
  is_some, ok, err, ◌>>◌,
}
use moos_kernel.Graph.{Urn, null, Node, Envelope, PersistedRewrite}
use moos_kernel.Reactive.{prop_str}
use moos_kernel.Reactive.Engine.{reactor, t_hook, unknown, Firing, Json, evaluate_detailed}
use moos_kernel.Kernel.{Host, Runtime}
use moos_kernel.TDay.{t_day}
use moos_kernel.Kernel.Staging.{Texts, event_proposal_urn, stage_hook_proposal_pair}
use moos_kernel.Kernel.Gates.{check_gates}
use moos_kernel.Kernel.Commit.{inject_property_spec}
use moos_kernel.Kernel.Apply.{apply_staged, apply_reactive}

-- The specification that a kernel without a registry falls back to.
unfoldable pub with_fallback_spec : Node → Envelope → Envelope
with_fallback_spec hook env =
    if not (is_some env.property_spec) && not (is_some (get "firing_state" hook.properties))
    then record env {
      property_spec = some (record {
        value = null;
        mutability = "mutable";
        authority_scope = "kernel";
        stratum_origin = 2;
        validation_type = "";
      });
    }
    else env

module _ {S : Type 0} (host : Host S) where
  -- The proposal first; the hook is marked only if the proposal landed.
  abbrev pub stage_both : Envelope → Runtime S × Bool → Runtime S
  stage_both mark (rt, true) = (apply_staged host rt mark).0
  stage_both mark (rt, false) = rt

  -- The gates on both envelopes, then the two appliers.
  unfoldable pub stage_pair : Runtime S → Envelope → Envelope → Runtime S
  stage_pair rt proposal mark =
      elim (check_gates host.print_value proposal rt.state
        >> check_gates host.print_value mark rt.state) [
          | err e ↦ rt
          | ok u ↦ stage_both mark (apply_staged host rt proposal)
        ]

  -- The part of `stageEventHookLocked` for a hook that is pending.
  unfoldable pub stage_pending :
      Texts → Urn → Runtime S → Firing → PersistedRewrite → ℕ → Node → Runtime S
  unfolding stage_hook_proposal_pair with_fallback_spec stage_pair
  stage_pending texts sweep_actor rt f trigger index hook =
      let day = t_day (host.time_at rt.readings) in
      let read = record rt { readings = suc (suc rt.readings) } in
      elim (texts.to_json f.proposal) [
        | none ↦ read
        | some proposed ↦
            let pair =
              stage_hook_proposal_pair texts hook day sweep_actor
                (event_proposal_urn texts hook.urn day trigger.log_seq index)
                (texts.format (host.time_at (suc rt.readings))) (some proposed) in
            stage_pair read pair.0
              (with_fallback_spec hook (inject_property_spec rt.registry pair.1 hook))
      ]

  -- `stageEventHookLocked`
  unfoldable pub stage_event_hook :
      Texts → Urn → Runtime S → Firing → PersistedRewrite → ℕ → Runtime S
  unfolding stage_pending
  stage_event_hook texts sweep_actor rt f trigger index = elim (get f.source_hook rt.state.nodes) [
    | none ↦ rt
    | some hook ↦
        if not (prop_str hook "firing_state" == "")
          && not (prop_str hook "firing_state" == "pending")
        then rt
        else stage_pending texts sweep_actor rt f trigger index hook
  ]

  -- The switch of `runReactive`.
  unfoldable pub route_firing : Texts → Urn → Runtime S → Firing → PersistedRewrite → ℕ → Runtime S
  unfolding stage_event_hook
  route_firing texts sweep_actor rt f trigger index = elim f.kind [
    | t_hook ↦ stage_event_hook texts sweep_actor rt f trigger index
    | reactor ↦ (apply_reactive host rt f.proposal).0
    | unknown k ↦ rt
  ]

  -- The loop of `runReactive` over the engine's firings, from the one at `index`.
  unfoldable pub route_firings :
      Texts → Urn → Runtime S → List Firing → PersistedRewrite → ℕ → Runtime S
  unfolding route_firing
  route_firings texts sweep_actor rt [] trigger index = rt
  route_firings texts sweep_actor rt (f ∷ fs) trigger index =
      route_firings texts sweep_actor (route_firing texts sweep_actor rt f trigger index) fs trigger
        (suc index)

  -- `runReactive`: the engine reads the state at the trigger, and its firings are routed in turn.
  unfoldable pub run_reactive : Texts → Json → Urn → Runtime S → PersistedRewrite → Runtime S
  unfolding route_firings
  run_reactive texts json sweep_actor rt trigger =
      route_firings texts sweep_actor rt (evaluate_detailed host.print_value json rt.state trigger)
        trigger 0
