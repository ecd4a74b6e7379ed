-- ===== src/Kernel/Folded/Reacting.antt =====
-- internal/kernel/runtime.go: the reactions to a rewrite keep the state the fold of the log.
use moos_kernel.Prelude.{
  ℕ, suc, sym, inl, inr, Bool, true, false, not, ◌&&◌, Option, none, some, List, [], ◌∷◌, ◌==◌,
  if◌then◌else◌, get, Result, ok, err, ◌>>◌, Bool-cases,
}
use mathlib.Core.List.{append-nil}
use moos_kernel.Graph.{Urn, Value, Node, Envelope, PersistedRewrite}
use moos_kernel.Fold.Identity.{Later-refl}
use moos_kernel.Reactive.{prop_str}
use moos_kernel.Kernel.{Host, Runtime, KernelError}
use moos_kernel.Kernel.Gates.{check_gates}
use moos_kernel.Kernel.Commit.{inject_property_spec}
use moos_kernel.Kernel.Apply.{apply_staged, apply_reactive}
use moos_kernel.TDay.{t_day}
use moos_kernel.Kernel.Staging.{Texts, event_proposal_urn, stage_hook_proposal_pair}
use moos_kernel.Reactive.Engine.{FiringKind, reactor, t_hook, unknown, Firing}
use moos_kernel.Kernel.Reactions.{
  with_fallback_spec, stage_both, stage_pair, stage_pending, stage_event_hook, route_firing,
  route_firings,
}
use moos_kernel.Kernel.Folded.{IsStore, IsFolded}
use moos_kernel.Kernel.Folded.Writers.{Grown, Grown-refl, Grown-trans, emissions-Grown}

module _ {S : Type 0} (host : Host S) (laws : IsStore host.store) where
  pub Grown-read :
      (rt : Runtime S) (n : ℕ) → IsFolded host rt → Grown host rt (record rt { readings = n })
  Grown-read rt n i = record {
    is_folded = record { folded = i.folded; durable = i.durable };
    more = [];
    grows = sym (append-nil rt.log);
    later = Later-refl rt.state;
  }

  Grown-stage_both :
      (rt : Runtime S) (mark : Envelope) (q : Runtime S × Bool)
      → Grown host rt q.0
      → Grown host rt (stage_both host mark q)
  Grown-stage_both rt mark (rt', false) g = g
  Grown-stage_both rt mark (rt', true) g =
      Grown-trans host laws rt rt' (apply_staged host rt' mark).0 g
        (emissions-Grown host laws rt' mark g.is_folded).1

  Grown-stage_pair :
      (rt : Runtime S) (proposal mark : Envelope)
      → IsFolded host rt
      → Grown host rt (stage_pair host rt proposal mark)
  unfolding stage_pair
  Grown-stage_pair rt proposal mark i =
      go (
        check_gates host.print_value proposal rt.state
        >> check_gates host.print_value mark rt.state)
    where
      go :
          (q : Result KernelError (Unit {0}))
          → Grown host rt (elim q as (λ _. Runtime S) [
            | err e ↦ rt
            | ok u ↦ stage_both host mark (apply_staged host rt proposal)
          ])
      go (err e) = Grown-refl host laws rt i
      go (ok u) =
          Grown-stage_both rt mark (apply_staged host rt proposal)
            (emissions-Grown host laws rt proposal i).1

  Grown-stage_pending :
      (texts : Texts) (sweep_actor : Urn) (rt : Runtime S) (f : Firing) (trigger : PersistedRewrite)
      (index : ℕ) (hook : Node)
      → IsFolded host rt
      → Grown host rt (stage_pending host texts sweep_actor rt f trigger index hook)
  unfolding stage_pending
  Grown-stage_pending texts sweep_actor rt f trigger index hook i = go (texts.to_json f.proposal)
    where
      read : Runtime S
      read = record rt { readings = suc (suc rt.readings) }

      pair : Value → Envelope × Envelope
      pair proposed =
          stage_hook_proposal_pair texts hook (t_day (host.time_at rt.readings)) sweep_actor
            (event_proposal_urn texts hook.urn (t_day (host.time_at rt.readings)) trigger.log_seq
              index)
            (texts.format (host.time_at (suc rt.readings))) (some proposed)

      staged : Value → Runtime S
      staged proposed =
          stage_pair host read (pair proposed).0
            (with_fallback_spec hook (inject_property_spec rt.registry (pair proposed).1 hook))

      go :
          (o : Option Value)
          → Grown host rt
              (elim o as (λ _. Runtime S) [ none ↦ read | some proposed ↦ staged proposed ])
      go none = Grown-read rt (suc (suc rt.readings)) i
      go (some proposed) =
          Grown-trans host laws rt read (staged proposed) (Grown-read rt (suc (suc rt.readings)) i)
            (Grown-stage_pair read (pair proposed).0
              (with_fallback_spec hook (inject_property_spec rt.registry (pair proposed).1 hook))
              (record { folded = i.folded; durable = i.durable }))

  Grown-stage_event_hook :
      (texts : Texts) (sweep_actor : Urn) (rt : Runtime S) (f : Firing) (trigger : PersistedRewrite)
      (index : ℕ)
      → IsFolded host rt
      → Grown host rt (stage_event_hook host texts sweep_actor rt f trigger index)
  unfolding stage_event_hook
  Grown-stage_event_hook texts sweep_actor rt f trigger index i =
      go (get f.source_hook rt.state.nodes)
    where
      go :
          (o : Option Node)
          → Grown host rt (elim o as (λ _. Runtime S) [
            | none ↦ rt
            | some hook ↦
                if not (prop_str hook "firing_state" == "")
                  && not (prop_str hook "firing_state" == "pending")
                then rt
                else stage_pending host texts sweep_actor rt f trigger index hook
          ])
      go none = Grown-refl host laws rt i
      go (some hook) =
          elim (Bool-cases (
            not (prop_str hook "firing_state" == "")
            && not (prop_str hook "firing_state" == "pending"))) [
              | inl busy ↦ rw busy (Grown-refl host laws rt i)
              | inr idle ↦ rw idle (Grown-stage_pending texts sweep_actor rt f trigger index hook i)
            ]

  Grown-route_firing :
      (texts : Texts) (sweep_actor : Urn) (rt : Runtime S) (f : Firing) (trigger : PersistedRewrite)
      (index : ℕ)
      → IsFolded host rt
      → Grown host rt (route_firing host texts sweep_actor rt f trigger index)
  unfolding route_firing
  Grown-route_firing texts sweep_actor rt f trigger index i = go f.kind
    where
      go :
          (k : FiringKind)
          → Grown host rt (elim k as (λ _. Runtime S) [
            | t_hook ↦ stage_event_hook host texts sweep_actor rt f trigger index
            | reactor ↦ (apply_reactive host rt f.proposal).0
            | unknown u ↦ rt
          ])
      go t_hook = Grown-stage_event_hook texts sweep_actor rt f trigger index i
      go reactor = (emissions-Grown host laws rt f.proposal i).0
      go (unknown u) = Grown-refl host laws rt i

  -- Whatever the engine fires on a rewrite, its routing, with proposals that are applied, staged or
  -- dropped, keeps the state the fold of the log, keeps the log in the store, and only adds to the log.
  pub route_firings-Grown :
      (texts : Texts) (sweep_actor : Urn) (trigger : PersistedRewrite) (fs : List Firing)
      (rt : Runtime S) (index : ℕ)
      → IsFolded host rt
      → Grown host rt (route_firings host texts sweep_actor rt fs trigger index)
  unfolding route_firings
  route_firings-Grown texts sweep_actor trigger [] rt index i = Grown-refl host laws rt i
  route_firings-Grown texts sweep_actor trigger (f ∷ fs) rt index i =
      let next = route_firing host texts sweep_actor rt f trigger index in
      let g = Grown-route_firing texts sweep_actor rt f trigger index i in
      Grown-trans host laws rt next
        (route_firings host texts sweep_actor next fs trigger (suc index)) g
        (route_firings-Grown texts sweep_actor trigger fs next (suc index) g.is_folded)
