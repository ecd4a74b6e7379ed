-- ===== src/Kernel/Sweep/Tick.antt =====
-- internal/kernel/sweep.go, `SweepTick`: each due hook is proposed, and is not staged again.
use moos_kernel.Prelude.{
  suc, ◌+◌, ◌%◌, ◌^◌, String, ◌≡◌, refl, sym, ◌∙◌, ap, subst, inl, inr, true, false, Option, some,
  List, [], ◌∷◌, get, contains, All, Result, ok, err, arith, Result-cases,
}
use moos_kernel.Graph.{Urn, Time, Int64, Value, Node, Envelope, EvalResult, GraphState}
use moos_kernel.Graph.State.{clone, nodes_of_type}
use moos_kernel.Graph.Consistent.{IsConsistent, reads_exact}
use moos_kernel.Fold.Program.{ProgramError, stamps, evaluate_program_at}
use moos_kernel.Reactive.{prop_str}
use moos_kernel.Kernel.{Host, Runtime, KernelError, program}
use moos_kernel.Kernel.Program.{
  times, walk_batch, persisted_batch, persist_batch, commit_batch, admit_batch, apply_program,
}
use moos_kernel.Kernel.Folded.{IsStore, IsFolded}
use moos_kernel.Kernel.Folded.Batches.{batch-Run}
use moos_kernel.Kernel.Drift.{Hdc, last, finish_batch, apply_program_annotated}
use moos_kernel.Kernel.Folded.Whole.{Outcome, apply_program-Outcome}
use moos_kernel.Kernel.Sweep.Claims.{Marked, drift-Marked}
use moos_kernel.Kernel.Sweep.Batch.{IsStaging, Marks, HasMark, IsProposed, Run-IsProposed}
use moos_kernel.Kernel.Staging.{Texts, stage_hook_proposal_pair}
use moos_kernel.Kernel.Sweep.{is_pending, is_due, hook_pair, sweep_hooks, sweep_once}
use moos_kernel.Kernel.Sweep.Batch.{sweep_hooks-cons, sweep_hooks-HasMark, pair_at, hooks_from}
use moos_kernel.Kernel.Sweep.Walk.{walk_batch-IsStaging, walk_batch-HasMark}
use moos_kernel.Kernel.Sweep.Landing.{persist_batch-IsProposed}
use moos_kernel.Kernel.Program.{preflight}

module _ {S : Type 0} (host : Host S) (laws : IsStore host.store) (u : Urn) where
  commit_batch-IsProposed :
      (rt rt' : Runtime S) (base : Time) (rs : List EvalResult) (envs : List Envelope)
      → IsFolded host rt
      → All IsStaging envs
      → HasMark u envs
      → commit_batch host rt base envs ≡ (rt', ok rs)
      → IsProposed rt'.state u
  unfolding commit_batch
  commit_batch-IsProposed rt rt' base rs envs i all mark =
      go (evaluate_program_at (λ i. base + i) rt.state envs (times base 0 envs)) refl
    where
      go :
          (q : GraphState × Result ProgramError (List EvalResult))
          → evaluate_program_at (λ i. base + i) rt.state envs (times base 0 envs) ≡ q
          → (elim q.1 as (λ _. Runtime S × Result KernelError (List EvalResult)) [
            | err e ↦ (rt, err (program e))
            | ok results ↦
                persist_batch host rt q.0 results envs (persisted_batch base 0 rt.log_seq envs)
          ])
            ≡ (rt', ok rs)
          → IsProposed rt'.state u
      go (next, err e) h k = absurd (ground arith)
      go (next, ok results) h k =
          persist_batch-IsProposed host laws u rt rt' base next results rs envs i h
            (Run-IsProposed (stamps (λ j. base + j) envs (times base 0 envs)) u
              (batch-Run host laws rt base next results envs i h) all (inr mark))
            k

  pub apply_program-IsProposed :
      (rt rt' : Runtime S) (rs : List EvalResult) (envs : List Envelope)
      → IsFolded host rt
      → All IsStaging envs
      → HasMark u envs
      → apply_program host rt envs ≡ (rt', ok rs)
      → IsProposed rt'.state u
  unfolding apply_program admit_batch
  apply_program-IsProposed rt rt' rs envs i all mark h =
      elim (Result-cases (preflight rt.registry rt.state envs)) [
        | inr (e, failed) ↦ absurd (ground arith)
        | inl (ok_u, passed) ↦
            elim (Result-cases (
              walk_batch host.print_value rt.registry (host.time_at rt.readings) 0 (clone rt.state)
                envs)) [
                  | inr (e, failed) ↦ absurd (ground arith)
                  | inl (injected, walked) ↦
                      commit_batch-IsProposed (record rt { readings = suc rt.readings }) rt'
                        (host.time_at rt.readings) rs injected
                        (record { folded = i.folded; durable = i.durable })
                        (walk_batch-IsStaging host.print_value rt.registry
                          (host.time_at rt.readings) 0 (clone rt.state) envs injected walked all)
                        (walk_batch-HasMark host.print_value rt.registry (host.time_at rt.readings)
                          0 (clone rt.state) envs injected u walked mark)
                        (ground arith)
                ]
      ]

  pub annotated-IsProposed :
      (texts : Texts) (hdc : Option Hdc) (rt rt' : Runtime S) (rs : List EvalResult)
      (envs : List Envelope)
      → IsFolded host rt
      → All IsStaging envs
      → HasMark u envs
      → apply_program_annotated host texts hdc rt envs ≡ (rt', ok rs)
      → IsProposed rt'.state u
  unfolding apply_program_annotated
  annotated-IsProposed texts hdc rt rt' rs [] i all mark h = absurd mark
  annotated-IsProposed texts hdc rt rt' rs (env ∷ envs) i all mark h =
      go (apply_program host rt (env ∷ envs)) refl h
    where
      folded_after :
          (rt1 : Runtime S) (rs1 : List EvalResult)
          → apply_program host rt (env ∷ envs) ≡ (rt1, ok rs1)
          → IsFolded host rt1
      folded_after rt1 rs1 a =
          subst (Outcome host laws rt) a (apply_program-Outcome host laws rt (env ∷ envs) i)

      go :
          (q : Runtime S × Result KernelError (List EvalResult))
          → apply_program host rt (env ∷ envs) ≡ q
          → finish_batch host texts hdc (env ∷ envs) q ≡ (rt', ok rs)
          → IsProposed rt'.state u
      go (rt1, err e) a k = absurd (ground arith)
      go (rt1, ok rs1) a k =
          let marked : Marked host laws u rt1 = (
            folded_after rt1 rs1 a,
            apply_program-IsProposed rt rt1 rs1 (env ∷ envs) i all mark a,
          ) in
          subst (λ (s : GraphState). IsProposed s u) (ap (λ q. q.0.state) k)
            (drift-Marked host laws u texts hdc rt1 (last env envs) marked).1

module _ (print_value : Value → String) (texts : Texts) (current_t : Int64) (actor : Urn)
    (base_seq : Int64) (now : Time) (s : GraphState) (c : IsConsistent s) (u : Urn) where
  abbrev pub batch : List Envelope
  batch = sweep_once print_value texts s current_t actor base_seq now

  pub batch-HasMark :
      (hook : Node)
      → get u s.nodes ≡ some hook
      → hook.type_id ≡ "t_hook"
      → is_due print_value s current_t hook ≡ true
      → HasMark u batch
  unfolding sweep_once
  batch-HasMark hook at kind due =
      let listed : contains u (nodes_of_type s "t_hook") ≡ true =
        (reads_exact s c "t_hook" u).0.0 ∙ rw (at, kind) refl in
      sweep_hooks-HasMark print_value texts s current_t actor base_seq now 0
        (nodes_of_type s "t_hook") u hook listed at (c.node_urn u hook at) due

  proposed_idle :
      (hook : Node)
      → IsProposed s u
      → get u s.nodes ≡ some hook
      → is_due print_value s current_t hook ≡ false
  unfolding is_due is_pending
  proposed_idle hook (n, found, says) at =
      let same : n ≡ hook = ground arith in
      let text : prop_str hook "firing_state" ≡ "proposed" =
        subst (λ (m : Node). prop_str m "firing_state" ≡ "proposed") same says in
      rw text refl

  pair_unmarked :
      (n : Int64) (w : Urn) (hook : Node)
      → IsProposed s u
      → get w s.nodes ≡ some hook
      → is_due print_value s current_t hook ≡ true
      → (Marks u (pair_at print_value texts s current_t actor base_seq now n hook).0 → ⊥)
        × (Marks u (pair_at print_value texts s current_t actor base_seq now n hook).1 → ⊥)
  unfolding hook_pair stage_hook_proposal_pair
  pair_unmarked n w hook p at due = (
    λ m. absurd (ground (arith, m.kind)),
    λ m.
        let here : w ≡ u = sym (c.node_urn w hook at) ∙ m.target in
        let at_u : get u s.nodes ≡ some hook =
          subst (λ (x : Urn). get x s.nodes ≡ some hook) here at in
        absurd (ground (arith, proposed_idle hook p at_u)),
  )

  hooks-unmarked :
      (n : Int64) (us : List Urn)
      → IsProposed s u
      → ¬ HasMark u (hooks_from print_value texts s current_t actor base_seq now n us)
  unfolding sweep_hooks
  hooks-unmarked n [] p = λ m. m
  hooks-unmarked n (w ∷ us) p =
      sweep_hooks-cons print_value texts s current_t actor base_seq now (λ es. ¬ HasMark u es) n w
        us (λ idle. hooks-unmarked n us p)
        λ hook at due.
          let (first, second) = pair_unmarked ((n + 1) % 2 ^ 64) w hook p at due in
          λ m. elim m [
            | inl a ↦ first a
            | inr b ↦ elim b [ inl d ↦ second d | inr e ↦ hooks-unmarked ((n + 2) % 2 ^ 64) us p e ]
          ]

  pub batch-unmarked : IsProposed s u → ¬ HasMark u batch
  unfolding sweep_once
  batch-unmarked p = hooks-unmarked 0 (nodes_of_type s "t_hook") p
