-- ===== src/Kernel/Folded/Once.antt =====
-- internal/kernel/runtime.go, `stageEventHookLocked`: a hook is staged once.
use moos_kernel.Prelude.{
  ℕ, String, ◌≡◌, refl, sym, ◌∙◌, ap, subst, Bool, true, false, some, ◌==◌, get, Result, ok, err,
  arith,
}
use moos_kernel.Graph.{
  Urn, Int64, mutate, Value, str, Node, Envelope, EvalResult, PersistedRewrite, GraphState,
}
use moos_kernel.Reactive.{prop_str}
use moos_kernel.Kernel.{Host, Runtime, KernelError}
use moos_kernel.Kernel.Commit.{validate, broadcast, commit}
use moos_kernel.Kernel.Apply.{settle_quietly, apply_staged}
use moos_kernel.Kernel.Staging.{Texts, stage_hook_proposal_pair}
use moos_kernel.Reactive.Engine.{Firing}
use moos_kernel.Kernel.Reactions.{with_fallback_spec, stage_event_hook}
use moos_kernel.Kernel.Says.{Says, Effect-Says}
use moos_kernel.Kernel.Folded.{IsStore, IsFolded, Committed, commit-Committed}

module _ {S : Type 0} (host : Host S) (laws : IsStore host.store) where
  settled-Says :
      (rt rt' : Runtime S) (env : Envelope) (text : String)
      (q : Runtime S × Result KernelError (EvalResult × PersistedRewrite))
      → env.new_value ≡ str text
      → env.rewrite_type ≡ mutate
      → Committed host rt env q
      → settle_quietly host q ≡ (rt', true)
      → Says rt'.state env.target_urn env.field text
  unfolding broadcast
  settled-Says rt rt' env text (rt1, err e) value kind c h = absurd (ground arith)
  settled-Says rt rt' env text (rt1, ok (r, pr)) value kind (i, e, log, effect) h =
      subst (λ (v : GraphState). Says v env.target_urn env.field text) (ap (λ p. p.0.state) h)
        (Effect-Says rt.state env text value pr.applied_at rt1.state r kind effect)

  staged-Says :
      (rt rt' : Runtime S) (env : Envelope) (text : String)
      → IsFolded host rt
      → env.new_value ≡ str text
      → env.rewrite_type ≡ mutate
      → apply_staged host rt env ≡ (rt', true)
      → Says rt'.state env.target_urn env.field text
  unfolding apply_staged
  staged-Says rt rt' env text i value kind h = go (validate rt.registry env) h
    where
      go :
          (q : Result KernelError (Unit {0}))
          → (elim q as (λ _. Runtime S × Bool) [
            | err e ↦ (rt, false)
            | ok u ↦ settle_quietly host (commit host rt env)
          ])
            ≡ (rt', true)
          → Says rt'.state env.target_urn env.field text
      go (err e) k = absurd (ground arith)
      go (ok u) k =
          settled-Says rt rt' env text (commit host rt env) value kind
            (commit-Committed host laws rt env i) k

  mark_fields :
      (texts : Texts) (sweep_actor : Urn) (hook : Node) (day : Int64) (urn : Urn) (now : String)
      (proposed : Value)
      → let mark =
          with_fallback_spec hook
            (stage_hook_proposal_pair texts hook day sweep_actor urn now (some proposed)).1 in
        (mark.target_urn ≡ hook.urn)
        × (mark.field ≡ "firing_state")
        × (mark.new_value ≡ str "proposed")
        × (mark.rewrite_type ≡ mutate)
  unfolding stage_hook_proposal_pair with_fallback_spec
  mark_fields texts sweep_actor hook day urn now proposed =
      (ground arith, ground arith, ground arith, ground arith)

  -- From a runtime whose state is the fold of its log: when the mark of a staged hook has landed, a
  -- firing of that hook, on any trigger, stages nothing and leaves the runtime as it is.
  pub stages_once :
      (texts : Texts) (sweep_actor : Urn) (rt rt' : Runtime S) (hook : Node) (day : Int64)
      (urn : Urn) (now : String) (proposed : Value) (f : Firing) (trigger : PersistedRewrite)
      (index : ℕ)
      → IsFolded host rt
      → apply_staged host rt (
          with_fallback_spec hook
            (stage_hook_proposal_pair texts hook day sweep_actor urn now (some proposed)).1)
        ≡ (rt', true)
      → f.source_hook ≡ hook.urn
      → stage_event_hook host texts sweep_actor rt' f trigger index ≡ rt'
  unfolding stage_event_hook stage_hook_proposal_pair with_fallback_spec
  stages_once texts sweep_actor rt rt' hook day urn now proposed f trigger index i landed same =
      let mark =
        with_fallback_spec hook
          (stage_hook_proposal_pair texts hook day sweep_actor urn now (some proposed)).1 in
      let (target, field, value, kind) = mark_fields texts sweep_actor hook day urn now proposed in
      let (n, found, says) = staged-Says rt rt' mark "proposed" i value kind landed in
      let at : get f.source_hook rt'.state.nodes ≡ some n =
        subst (λ (u : Urn). get u rt'.state.nodes ≡ some n) (target ∙ sym same) found in
      let text : prop_str n "firing_state" ≡ "proposed" =
        subst (λ (k : String). prop_str n k ≡ "proposed") field says in
      let set : (prop_str n "firing_state" == "") ≡ false = rw text refl in
      let taken : (prop_str n "firing_state" == "pending") ≡ false = rw text refl in ground arith
