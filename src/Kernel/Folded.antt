-- ===== src/Kernel/Folded.antt =====
-- internal/kernel/runtime.go: the state of the runtime is the fold of its log, and the log is what the
-- store holds.
pub mod Writers
pub mod Batches
pub mod Restart
pub mod Sequence
pub mod Causes
pub mod Reacting
pub mod Once
pub mod Whole
use moos_kernel.Prelude.{
  ℕ, zero, suc, ◌+◌, String, ◌≡◌, refl, sym, ◌∙◌, ap, subst, inl, inr, ◌⊎◌, Bool, true, false, not,
  Option, none, some, List, [], ◌∷◌, ◌++◌, nat_eq, if◌then◌else◌, Result, ok, err, arith,
  Bool-cases, Option-cases,
}
use moos_kernel.Graph.{Time, Int64, Envelope, EvalResult, PersistedRewrite, GraphState}
use moos_kernel.Graph.Consistent.{IsConsistent}
use moos_kernel.Fold.{FoldError, evaluate_at}
use moos_kernel.Fold.Effect.{Effect}
use moos_kernel.Fold.Evaluate.{evaluate_at_cases}
use moos_kernel.Fold.Identity.{Later, Effect-Later}
use moos_kernel.Fold.Replay.{replay_applied_at, Replayed, replay}
use moos_kernel.Fold.Log.{replayed-IsConsistent, replay-extend}
use moos_kernel.Kernel.{Store, Host, Runtime, KernelError, fold, persist}
use moos_kernel.Kernel.Commit.{next_seq, persisted_rewrite, broadcast, persist_one, commit}

-- What the runtime relies on: an append adds the entries at the end, or fails and adds nothing.
pub record IsStore {S : Type 0} (store : Store S) : Type 0 where
  pub appends :
      (s : S) (log es : List PersistedRewrite) (s' : S)
      → store.read_all s ≡ ok log
      → store.append es s ≡ (s', none)
      → store.read_all s' ≡ ok (log ++ es)
  pub keeps :
      (s : S) (log es : List PersistedRewrite) (s' : S) (e : String)
      → store.read_all s ≡ ok log
      → store.append es s ≡ (s', some e)
      → store.read_all s' ≡ ok log

-- The truth is the log: the state is its fold, and the store holds it.
pub record IsFolded {S : Type 0} (host : Host S) (rt : Runtime S) : Type 0 where
  pub folded : replay rt.log ≡ (rt.state, none)
  pub durable : host.store.read_all rt.stored ≡ ok rt.log

pub folded-IsConsistent :
    {S : Type 0} (host : Host S) (rt : Runtime S) → IsFolded host rt → IsConsistent rt.state
folded-IsConsistent host rt i =
    subst (λ (q : Replayed). IsConsistent q.0) i.folded (replayed-IsConsistent rt.log)

-- What a commit of `env` to `rt` may end in.
abbrev pub Committed :
    {S : Type 0}
    → Host S
    → Runtime S
    → Envelope
    → Runtime S × Result KernelError (EvalResult × PersistedRewrite)
    → Type 0
Committed host rt env (rt', err e) = IsFolded host rt' × (rt'.state ≡ rt.state) × (rt'.log ≡ rt.log)
Committed host rt env (rt', ok (r, pr)) =
    IsFolded host rt'
    × (pr.envelope ≡ env)
    × (rt'.log ≡ rt.log ++ pr ∷ [])
    × Effect rt.state env pr.applied_at rt'.state r

pub replayed_time :
    (env : Envelope) (now : Time) (seq : Int64)
    → replay_applied_at (persisted_rewrite env now seq) ≡ now
unfolding replay_applied_at
replayed_time env now seq = ground arith

module _ {S : Type 0} (host : Host S) (laws : IsStore host.store) where
  persist_one-Committed :
      (rt : Runtime S) (env : Envelope) (now : Time) (seq : Int64) (next : GraphState)
      (r : EvalResult)
      → IsFolded host rt
      → Effect rt.state env now next r
      → Committed host rt env (persist_one host rt next r (persisted_rewrite env now seq))
  unfolding persist_one
  persist_one-Committed rt env now seq next r i effect =
      go (host.store.append (pr ∷ []) rt.stored) refl
    where
      pr : PersistedRewrite
      pr = persisted_rewrite env now seq

      go :
          (q : S × Option String)
          → host.store.append (pr ∷ []) rt.stored ≡ q
          → Committed host rt env (elim q.1 [
            | some e ↦ (record rt { log_seq = seq; stored = q.0 }, err (persist e))
            | none ↦ (
              record rt { log_seq = seq; stored = q.0; state = next; log = rt.log ++ pr ∷ [] },
              ok (r, pr),
            )
          ])
      go (s', some e) h = (
        record {
          folded = i.folded;
          durable = laws.keeps rt.stored rt.log (pr ∷ []) s' e i.durable h;
        },
        refl,
        refl,
      )
      go (s', none) h = (
        record {
          folded = replay-extend rt.log rt.state pr next r i.folded (rw replayed_time effect);
          durable = laws.appends rt.stored rt.log (pr ∷ []) s' i.durable h;
        },
        refl,
        refl,
        effect,
      )

  -- A commit keeps the invariant; one that fails, in the fold or in the store, changes neither state
  -- nor log; one that succeeds logs the rewrite and moves the state by its effect.
  pub commit-Committed :
      (rt : Runtime S) (env : Envelope)
      → IsFolded host rt
      → Committed host rt env (commit host rt env)
  unfolding commit
  commit-Committed rt env i =
      elim (evaluate_at_cases rt.state env (host.time_at rt.readings)
        (folded-IsConsistent host rt i)) [
          | inr (e, h, failed) ↦
              subst (λ q. Committed host rt env (body q)) (sym h) (same, refl, refl)
          | inl (next, r, h, effect) ↦
              subst (λ q. Committed host rt env (body q)) (sym h)
                (persist_one-Committed read env (host.time_at rt.readings) (next_seq rt.log_seq)
                  next r same effect)
        ]
    where
      read : Runtime S
      read = record rt { readings = suc rt.readings }

      same : IsFolded host read
      same = record { folded = i.folded; durable = i.durable }

      body :
          GraphState × Result FoldError EvalResult
          → Runtime S × Result KernelError (EvalResult × PersistedRewrite)
      body (next, err e) = (read, err (fold e))
      body (next, ok r) =
          persist_one host read next r
            (persisted_rewrite env (host.time_at rt.readings) (next_seq rt.log_seq))
