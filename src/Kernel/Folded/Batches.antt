-- ===== src/Kernel/Folded/Batches.antt =====
-- internal/kernel/runtime.go, `ApplyProgram`: a batch keeps the state the fold of the log.
use mathlib.Core.List.{append-nil, append_assoc}
use moos_kernel.Prelude.{
  ℕ, zero, suc, ◌+◌, String, ◌≡◌, refl, sym, ◌∙◌, ap, subst, inl, inr, ◌⊎◌, Option, none, some,
  List, [], ◌∷◌, ◌++◌, length, get_or, Result, ok, err, arith, Result-cases,
}
use moos_kernel.Graph.{Urn, Time, Int64, Envelope, EvalResult, PersistedRewrite, GraphState}
use moos_kernel.Fold.Effect.{Effect}
use moos_kernel.Fold.Identity.{Later, Later-trans}
use moos_kernel.Fold.Program.{ProgramError, stamps, evaluate_program_at}
use moos_kernel.Fold.Atomic.{Run, done, step, evaluate_program_iff, evaluate_program_atomic}
use moos_kernel.Fold.Replay.{replay_applied_at, replay}
use moos_kernel.Fold.Log.{replay-extend}
use moos_kernel.Kernel.{Host, Runtime, KernelError, program, persist}
use moos_kernel.Kernel.Commit.{next_seq, persisted_rewrite, broadcast}
use moos_kernel.Kernel.Program.{
  times, persisted_batch, seq_after, sessions_to_bump, bump_all, broadcast_all, persist_batch,
  commit_batch, admit_batch, apply_program,
}
use moos_kernel.Kernel.Apply.{bump_session_local_t}
use moos_kernel.Kernel.Folded.{IsStore, IsFolded, folded-IsConsistent, replayed_time}
use moos_kernel.Kernel.Folded.Writers.{Grown, Grown-refl, Grown-trans, Grown-broadcast, bump-Grown}

length-times :
    (base : Time) (i : ℕ) (envs : List Envelope) → length (times base i envs) ≡ length envs
unfolding times
length-times base i [] = refl
length-times base i (env ∷ envs) = ap suc (length-times base (suc i) envs)

get_or-times :
    (base : Time) (i k : ℕ) (envs : List Envelope)
    → get_or (times base i envs) k (base + (i + k)) ≡ base + (i + k)
unfolding times
get_or-times base i k [] = refl
get_or-times base i zero (env ∷ envs) = omega arith
get_or-times base i (suc k) (env ∷ envs) =
    let e : suc i + k ≡ i + suc k = omega arith in rw (← e) (get_or-times base (suc i) k envs)

-- The timestamp of rewrite `i` of a batch.
stamps-times :
    (base : Time) (envs : List Envelope) (i : ℕ)
    → stamps (λ j. base + j) envs (times base 0 envs) i ≡ base + i
stamps-times base envs i =
    let same : length (times base 0 envs) ≡ length envs = length-times base 0 envs in
    ground (arith, get_or-times base 0 i envs)

-- A batch in the log replays as its effects.
replay-batch :
    (stamp : ℕ → Time) (base : Time)
    → ((j : ℕ) → stamp j ≡ base + j)
    → (log : List PersistedRewrite) (i : ℕ) (seq : Int64) (s : GraphState) (envs : List Envelope)
      (v : GraphState) (rs : List EvalResult)
    → replay log ≡ (s, none)
    → Run stamp i s envs v rs
    → replay (log ++ persisted_batch base i seq envs) ≡ (v, none)
unfolding persisted_batch
replay-batch stamp base at log i seq s _ _ _ h done = rw append-nil h
replay-batch stamp base at log i seq s _ v _ h
      (step {t = t} {env = env} {envs = envs} {r = r} {rs = rs} effect run) =
    let pr = persisted_rewrite env (base + i) (next_seq seq) in
    let now : stamp i ≡ replay_applied_at pr =
      at i ∙ sym (replayed_time env (base + i) (next_seq seq)) in
    let one : replay (log ++ pr ∷ []) ≡ (t, none) =
      replay-extend log s pr t r h (subst (λ (w : Time). Effect s env w t r) now effect) in
    subst (λ (l : List PersistedRewrite). replay l ≡ (v, none))
      (append_assoc log (pr ∷ []) (persisted_batch base (suc i) (next_seq seq) envs))
      (replay-batch stamp base at (log ++ pr ∷ []) (suc i) (next_seq seq) t envs v rs one run)

module _ {S : Type 0} (host : Host S) (laws : IsStore host.store) where
  bump_all-Grown :
      (us : List Urn) (rt : Runtime S) → IsFolded host rt → Grown host rt (bump_all host rt us)
  unfolding bump_all
  bump_all-Grown [] rt i = Grown-refl host laws rt i
  bump_all-Grown (u ∷ us) rt i =
      let g = bump-Grown host laws rt u i in
      Grown-trans host laws rt (bump_session_local_t host rt u)
        (bump_all host (bump_session_local_t host rt u) us) g
        (bump_all-Grown us (bump_session_local_t host rt u) g.is_folded)

  Grown-broadcast_all :
      (prs : List PersistedRewrite) (rt rt' : Runtime S)
      → Grown host rt rt'
      → Grown host rt (broadcast_all host rt' prs)
  unfolding broadcast_all
  Grown-broadcast_all [] rt rt' g = g
  Grown-broadcast_all (pr ∷ prs) rt rt' g =
      Grown-broadcast_all prs rt (broadcast host rt' pr) (Grown-broadcast host laws rt rt' pr g)

  -- What `ApplyProgram` may end in, for the envelopes that it evaluates.
  abbrev pub AppliedBatch :
      Runtime S → Time → List Envelope → Runtime S × Result KernelError (List EvalResult) → Type 0
  AppliedBatch rt base injected (rt', err e) =
      IsFolded host rt' × (rt'.state ≡ rt.state) × (rt'.log ≡ rt.log)
  AppliedBatch rt base injected (rt', ok rs) =
      (more : List PersistedRewrite) × (rt'.log
        ≡ (rt.log ++ persisted_batch base 0 rt.log_seq injected) ++ more)
      × (length rs ≡ length injected)
      × Later rt.state rt'.state
      × IsFolded host rt'

  -- The runtime on which a batch has landed, before the bumps.
  abbrev pub landed : Runtime S → Time → GraphState → List Envelope → S → Runtime S
  landed rt base next envs stored = record rt {
    log_seq = seq_after rt.log_seq envs;
    stored = stored;
    state = next;
    log = rt.log ++ persisted_batch base 0 rt.log_seq envs;
  }

  pub batch-Run :
      (rt : Runtime S) (base : Time) (next : GraphState) (rs : List EvalResult)
      (envs : List Envelope)
      → IsFolded host rt
      → evaluate_program_at (λ i. base + i) rt.state envs (times base 0 envs) ≡ (next, ok rs)
      → Run (stamps (λ j. base + j) envs (times base 0 envs)) 0 rt.state envs next rs
  batch-Run rt base next rs envs i h =
      (evaluate_program_iff (λ j. base + j) rt.state envs (times base 0 envs)
          (folded-IsConsistent host rt i) next rs (length-times base 0 envs)).0
        h

  pub landed-IsFolded :
      (rt : Runtime S) (base : Time) (next : GraphState) (rs : List EvalResult)
      (envs : List Envelope) (stored : S)
      → IsFolded host rt
      → evaluate_program_at (λ i. base + i) rt.state envs (times base 0 envs) ≡ (next, ok rs)
      → host.store.append (persisted_batch base 0 rt.log_seq envs) rt.stored ≡ (stored, none)
      → IsFolded host (landed rt base next envs stored)
  landed-IsFolded rt base next rs envs stored i h a = record {
    folded =
        replay-batch (stamps (λ j. base + j) envs (times base 0 envs)) base (stamps-times base envs)
          rt.log 0 rt.log_seq rt.state envs next rs i.folded (batch-Run rt base next rs envs i h);
    durable =
        laws.appends rt.stored rt.log (persisted_batch base 0 rt.log_seq envs) stored i.durable a;
  }

  persist_batch-Applied :
      (rt : Runtime S) (base : Time) (next : GraphState) (rs : List EvalResult)
      (envs : List Envelope)
      → IsFolded host rt
      → evaluate_program_at (λ i. base + i) rt.state envs (times base 0 envs) ≡ (next, ok rs)
      → Later rt.state next
      → length rs ≡ length envs
      → AppliedBatch rt base envs
          (persist_batch host rt next rs envs (persisted_batch base 0 rt.log_seq envs))
  unfolding persist_batch
  persist_batch-Applied rt base next rs envs i h later lengths =
      go (host.store.append prs rt.stored) refl
    where
      prs : List PersistedRewrite
      prs = persisted_batch base 0 rt.log_seq envs

      go :
          (q : S × Option String)
          → host.store.append prs rt.stored ≡ q
          → AppliedBatch rt base envs (elim q.1 [
            | some e ↦
                (record rt { log_seq = seq_after rt.log_seq envs; stored = q.0 }, err (persist e))
            | none ↦ (
              broadcast_all host
                  (bump_all host
                    (record rt {
                      log_seq = seq_after rt.log_seq envs;
                      stored = q.0;
                      state = next;
                      log = rt.log ++ prs;
                    })
                    (sessions_to_bump rt.state envs []))
                  prs,
              ok rs,
            )
          ])
      go (s', some e) a = (
        record { folded = i.folded; durable = laws.keeps rt.stored rt.log prs s' e i.durable a },
        refl,
        refl,
      )
      go (s', none) a =
          let l : Runtime S = landed rt base next envs s' in
          let sound : IsFolded host l = landed-IsFolded rt base next rs envs s' i h a in
          let us = sessions_to_bump rt.state envs [] in
          let g : Grown host l (broadcast_all host (bump_all host l us) prs) =
            Grown-broadcast_all prs l (bump_all host l us) (bump_all-Grown us l sound) in
          (
            g.more,
            g.grows,
            lengths,
            Later-trans rt.state next (broadcast_all host (bump_all host l us) prs).state later
                g.later,
            g.is_folded,
          )

  commit_batch-Applied :
      (rt : Runtime S) (base : Time) (envs : List Envelope)
      → IsFolded host rt
      → AppliedBatch rt base envs (commit_batch host rt base envs)
  unfolding commit_batch
  commit_batch-Applied rt base envs i =
      elim (evaluate_program_atomic (λ j. base + j) rt.state envs (times base 0 envs)
        (folded-IsConsistent host rt i)) [
          | inl (e, h) ↦ subst (λ q. AppliedBatch rt base envs (body q)) (sym h) (i, refl, refl)
          | inr (next, rs, h, c, later, lengths) ↦
              subst (λ q. AppliedBatch rt base envs (body q)) (sym h)
                (persist_batch-Applied rt base next rs envs i h later lengths)
        ]
    where
      body :
          GraphState × Result ProgramError (List EvalResult)
          → Runtime S × Result KernelError (List EvalResult)
      body (next, err e) = (rt, err (program e))
      body (next, ok rs) =
          persist_batch host rt next rs envs (persisted_batch base 0 rt.log_seq envs)

  pub apply_program-Applied :
      (rt : Runtime S) (envs : List Envelope)
      → IsFolded host rt
      → ((e : KernelError) × (admit_batch host rt (host.time_at rt.readings) envs ≡ err e)
          × (apply_program host rt envs ≡ (rt, err e)))
        ⊎ ((injected : List Envelope) × (admit_batch host rt (host.time_at rt.readings) envs
              ≡ ok injected)
            × AppliedBatch rt (host.time_at rt.readings) injected (apply_program host rt envs))
  unfolding apply_program
  apply_program-Applied rt envs i =
      elim (Result-cases (admit_batch host rt (host.time_at rt.readings) envs)) [
        | inr (e, h) ↦ inl (e, h, subst (λ q. body q ≡ (rt, err e)) (sym h) refl)
        | inl (injected, h) ↦ inr (
          injected,
          h,
          subst (λ q. AppliedBatch rt (host.time_at rt.readings) injected (body q)) (sym h)
              (commit_batch-Applied (record rt { readings = suc rt.readings })
                (host.time_at rt.readings) injected
                (record { folded = i.folded; durable = i.durable })),
        )
      ]
    where
      body : Result KernelError (List Envelope) → Runtime S × Result KernelError (List EvalResult)
      body (err e) = (rt, err e)
      body (ok injected) =
          commit_batch host (record rt { readings = suc rt.readings }) (host.time_at rt.readings)
            injected
