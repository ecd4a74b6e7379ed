-- ===== src/Kernel/Sweep/Settles.antt =====
-- internal/kernel/sweep.go, `SweepOnce` and `SweepTick`: the end of a sweep.
use moos_kernel.Prelude.{
  suc, ◌≡◌, refl, sym, subst, inl, inr, ◌⊎◌, true, Option, some, List, [], ◌∷◌, All, get, Result,
  ok, err, arith,
}
use moos_kernel.Graph.{Urn, Time, Int64, Node, Envelope, EvalResult, GraphState}
use moos_kernel.Graph.Consistent.{IsConsistent}
use moos_kernel.Graph.Copies.{clone-eq}
use moos_kernel.TDay.{t_day}
use moos_kernel.Kernel.{Host, Runtime, KernelError}
use moos_kernel.Kernel.Drift.{Hdc, apply_program_annotated}
use moos_kernel.Kernel.Staging.{Texts}
use moos_kernel.Kernel.Folded.{IsStore, IsFolded, folded-IsConsistent}
use moos_kernel.Kernel.Folded.Whole.{Outcome, annotated-Outcome}
use moos_kernel.Kernel.Sweep.{is_due, sweep_once, sweep_actor_or_default, tick_batch, sweep_tick}
use moos_kernel.Kernel.Sweep.Batch.{IsStaging, HasMark, IsProposed, sweep_once-IsStaging}
use moos_kernel.Kernel.Sweep.Tick.{annotated-IsProposed, batch-HasMark, batch-unmarked}

module _ {S : Type 0} (host : Host S) (laws : IsStore host.store) where
  module _ (texts : Texts) (hdc : Option Hdc) where
    -- A t_hook that is due in the state of which the sweep took its copy, which may be older than the
    -- state that the batch is applied to: when the batch goes through, the hook is proposed, and no
    -- later sweep of the state that it leaves, on any day, stages the hook.
    pub sweep_proposes :
        (rt rt' : Runtime S) (rs : List EvalResult) (snapshot : GraphState) (current_t : Int64)
        (actor : Urn) (base_seq : Int64) (now : Time) (u : Urn) (hook : Node) (day : Int64)
        (by : Urn) (seq : Int64) (stamp : Time)
        → IsFolded host rt
        → IsConsistent snapshot
        → get u snapshot.nodes ≡ some hook
        → hook.type_id ≡ "t_hook"
        → is_due host.print_value snapshot current_t hook ≡ true
        → apply_program_annotated host texts hdc rt
            (sweep_once host.print_value texts snapshot current_t actor base_seq now)
          ≡ (rt', ok rs)
        → IsProposed rt'.state u
          × (¬ HasMark u (sweep_once host.print_value texts rt'.state day by seq stamp))
    sweep_proposes rt rt' rs snapshot current_t actor base_seq now u hook day by seq stamp i c at
          kind due h =
        let envs = sweep_once host.print_value texts snapshot current_t actor base_seq now in
        let proposed : IsProposed rt'.state u =
          annotated-IsProposed host laws u texts hdc rt rt' rs envs i
            (sweep_once-IsStaging host.print_value texts snapshot current_t actor base_seq now)
            (batch-HasMark host.print_value texts current_t actor base_seq now snapshot c u hook at
              kind due)
            h in
        let folded : IsFolded host rt' =
          subst (Outcome host laws rt) h (annotated-Outcome host laws texts hdc rt envs i) in
        (
          proposed,
          batch-unmarked host.print_value texts day by seq stamp rt'.state
              (folded-IsConsistent host rt' folded) u proposed,
        )

    -- The hook `u` is due on the day of the clock.
    abbrev IsDueNow : Runtime S → Urn → Type 0
    IsDueNow rt u =
        (hook : Node) × (get u rt.state.nodes ≡ some hook)
        × (hook.type_id ≡ "t_hook")
        × (is_due host.print_value rt.state (t_day (host.time_at rt.readings)) hook ≡ true)

    abbrev read_twice : Runtime S → Runtime S
    read_twice rt = record rt { readings = suc (suc rt.readings) }

    same_copy :
        (actor : Urn) (rt : Runtime S)
        → IsFolded host rt
        → tick_batch host texts actor rt
          ≡ sweep_once host.print_value texts rt.state
              (t_day (host.time_at rt.readings))
              (sweep_actor_or_default actor)
              rt.log_seq
              (host.time_at (suc rt.readings))
    unfolding tick_batch
    same_copy actor rt i = rw (clone-eq rt.state (folded-IsConsistent host rt i)) refl

    -- The end of a tick with the batch `envs`.
    ticked : Runtime S → List Envelope → Runtime S
    ticked rt [] = read_twice rt
    ticked rt (env ∷ rest) = (apply_program_annotated host texts hdc (read_twice rt) (env ∷ rest)).0

    abbrev Ticked : Runtime S → List Envelope → Runtime S → Type 0
    Ticked rt envs rt' =
        IsFolded host rt'
        × (((e : KernelError) × ((apply_program_annotated host texts hdc (read_twice rt) envs).1
                ≡ err e)
              × (rt'.state ≡ rt.state)
              × (rt'.log ≡ rt.log))
            ⊎ ((u : Urn) → IsDueNow rt u → IsProposed rt'.state u))

    due-HasMark :
        (actor : Urn) (rt : Runtime S) (u : Urn)
        → IsFolded host rt
        → IsDueNow rt u
        → HasMark u (tick_batch host texts actor rt)
    due-HasMark actor rt u i (hook, at, kind, due) =
        subst (HasMark u) (sym (same_copy actor rt i)) (
          batch-HasMark host.print_value texts (t_day (host.time_at rt.readings))
            (sweep_actor_or_default actor) rt.log_seq (host.time_at (suc rt.readings)) rt.state
            (folded-IsConsistent host rt i) u hook at kind due)

    ticked-Ticked :
        (rt : Runtime S) (envs : List Envelope)
        → IsFolded host rt
        → All IsStaging envs
        → ((u : Urn) → IsDueNow rt u → HasMark u envs)
        → Ticked rt envs (ticked rt envs)
    unfolding ticked
    ticked-Ticked rt [] i all marks =
        (record { folded = i.folded; durable = i.durable }, inr (λ u due. absurd (marks u due)))
    ticked-Ticked rt (env ∷ rest) i all marks =
        go (apply_program_annotated host texts hdc (read_twice rt) (env ∷ rest)) refl
      where
        read : IsFolded host (read_twice rt)
        read = record { folded = i.folded; durable = i.durable }

        go :
            (q : Runtime S × Result KernelError (List EvalResult))
            → apply_program_annotated host texts hdc (read_twice rt) (env ∷ rest) ≡ q
            → IsFolded host q.0
              × (((e : KernelError) × (q.1 ≡ err e) × (q.0.state ≡ rt.state) × (q.0.log ≡ rt.log))
                  ⊎ ((u : Urn) → IsDueNow rt u → IsProposed q.0.state u))
        go (rt', err e) h =
            let (folded, state, log) =
              subst (Outcome host laws (read_twice rt)) h
                (annotated-Outcome host laws texts hdc (read_twice rt) (env ∷ rest) read) in
            (folded, inl (e, refl, state, log))
        go (rt', ok rs) h = (
          subst (Outcome host laws (read_twice rt)) h
              (annotated-Outcome host laws texts hdc (read_twice rt) (env ∷ rest) read),
          inr λ u due.
              annotated-IsProposed host laws u texts hdc (read_twice rt) rt' rs (env ∷ rest) read
                all (marks u due) h,
        )

    sweep_tick-ticked :
        (actor : Urn) (rt : Runtime S)
        → sweep_tick host texts hdc actor rt ≡ ticked rt (tick_batch host texts actor rt)
    unfolding sweep_tick ticked
    sweep_tick-ticked actor rt = ground arith

    sweep_tick-Ticked :
        (actor : Urn) (rt : Runtime S)
        → IsFolded host rt
        → Ticked rt (tick_batch host texts actor rt) (sweep_tick host texts hdc actor rt)
    sweep_tick-Ticked actor rt i =
        subst (Ticked rt (tick_batch host texts actor rt)) (sym (sweep_tick-ticked actor rt)) (
          ticked-Ticked rt (tick_batch host texts actor rt) i
            (subst (All IsStaging) (sym (same_copy actor rt i)) (
              sweep_once-IsStaging host.print_value texts rt.state
                (t_day (host.time_at rt.readings)) (sweep_actor_or_default actor) rt.log_seq
                (host.time_at (suc rt.readings))))
            (λ u due. due-HasMark actor rt u i due))

    -- A tick from a runtime whose state is the fold of its log and whose store holds the log keeps it
    -- so. A t_hook that is due on the day of the clock is proposed afterwards, unless the batch is
    -- refused, and then state and log are as they were.
    pub sweep_tick_proposes :
        (actor : Urn) (rt : Runtime S) (u : Urn) (hook : Node)
        → IsFolded host rt
        → get u rt.state.nodes ≡ some hook
        → hook.type_id ≡ "t_hook"
        → is_due host.print_value rt.state (t_day (host.time_at rt.readings)) hook ≡ true
        → IsFolded host (sweep_tick host texts hdc actor rt)
          × (((e : KernelError) × ((apply_program_annotated host texts hdc
                    (read_twice rt)
                    (tick_batch host texts actor rt)).1
                  ≡ err e)
                × ((sweep_tick host texts hdc actor rt).state ≡ rt.state)
                × ((sweep_tick host texts hdc actor rt).log ≡ rt.log))
              ⊎ IsProposed (sweep_tick host texts hdc actor rt).state u)
    sweep_tick_proposes actor rt u hook i at kind due =
        let (folded, outcome) = sweep_tick-Ticked actor rt i in
        (
          folded,
          elim outcome [
            | inl refused ↦ inl refused
            | inr proposed ↦ inr (proposed u (hook, at, kind, due))
          ],
        )
