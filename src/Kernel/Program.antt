-- ===== src/Kernel/Program.antt =====
-- internal/kernel/runtime.go, `ApplyProgram`: a batch of rewrites applied as one.
use moos_kernel.Prelude.{
  ℕ, suc, ◌+◌, String, not, Option, none, some, List, [], ◌∷◌, ◌++◌, if◌then◌else◌, get, set_add,
  Result, ok, err, ◌>>=◌, ◌>>◌,
}
use moos_kernel.Graph.{
  Urn, Time, Int64, mutate, Value, Envelope, EvalResult, PersistedRewrite, GraphState,
}
use moos_kernel.Graph.State.{clone}
use moos_kernel.Fold.{FoldError, evaluate_at}
use moos_kernel.Fold.Program.{evaluate_program_at}
use moos_kernel.Operad.{Registry, same_type}
use moos_kernel.Operad.Session.{resolve_session_for_envelope, resolved}
use moos_kernel.Kernel.{Host, Runtime, KernelError, fold, program, persist}
use moos_kernel.Kernel.Gates.{check_gates}
use moos_kernel.Kernel.Liveness.{check_liveness_m11, check_liveness_m12}
use moos_kernel.Kernel.Commit.{
  validate, inject_property_spec, next_seq, persisted_rewrite, broadcast,
}
use moos_kernel.Kernel.Apply.{check_link, bump_session_local_t}

-- The loop under the read lock.
unfoldable pub preflight :
    Option Registry → GraphState → List Envelope → Result KernelError (Unit {0})
preflight registry state [] = ok tt
preflight registry state (env ∷ envs) = do
  check_liveness_m11 registry env state
  validate registry env
  preflight registry state envs

-- The injection, for a MUTATE whose node the working state has.
unfoldable pub inject_batch : Option Registry → Envelope → GraphState → Envelope
inject_batch none env working = env
inject_batch (some r) env working =
    if not (same_type env.rewrite_type mutate)
    then env
    else elim (get env.target_urn working.nodes) [
      | none ↦ env
      | some node ↦ inject_property_spec (some r) env node
    ]

-- `appliedAt`: one nanosecond between two rewrites.
unfoldable pub times : Time → ℕ → List Envelope → List Time
times base i [] = []
times base i (env ∷ envs) = (base + i) ∷ times base (suc i) envs

abbrev pub fold_result : GraphState × Result FoldError EvalResult → Result KernelError GraphState
fold_result (next, ok r) = ok next
fold_result (next, err e) = err (fold e)

module _ (print_value : Value → String) where
  -- The loop over the batch from rewrite `i`: each is checked against the state as it would be then.
  unfoldable pub walk_batch :
      Option Registry → Time → ℕ → GraphState → List Envelope → Result KernelError (List Envelope)
  unfolding inject_batch
  walk_batch registry base i working [] = ok []
  walk_batch registry base i working (env ∷ envs) = do
    check_liveness_m12 registry (inject_batch registry env working) working
    check_link registry (inject_batch registry env working) working
    check_gates print_value (inject_batch registry env working) working
    next ← fold_result (evaluate_at working (inject_batch registry env working) (base + i))
    rest ← walk_batch registry base (suc i) next envs
    ok (inject_batch registry env working ∷ rest)

-- The entries for the log, with the sequence numbers after `seq`.
unfoldable pub persisted_batch : Time → ℕ → Int64 → List Envelope → List PersistedRewrite
persisted_batch base i seq [] = []
persisted_batch base i seq (env ∷ envs) =
    persisted_rewrite env (base + i) (next_seq seq)
    ∷ persisted_batch base (suc i) (next_seq seq) envs

unfoldable pub seq_after : Int64 → List Envelope → Int64
seq_after seq [] = seq
seq_after seq (env ∷ envs) = seq_after (next_seq seq) envs

abbrev pub add_session : Option Urn → List Urn → List Urn
add_session none sessions = sessions
add_session (some u) sessions = set_add u sessions

-- `sessionsToBump`, read in the state before the batch.
unfoldable pub sessions_to_bump : GraphState → List Envelope → List Urn → List Urn
sessions_to_bump state [] sessions = sessions
sessions_to_bump state (env ∷ envs) sessions =
    sessions_to_bump state envs
      (add_session (resolved (resolve_session_for_envelope state env)) sessions)

module _ {S : Type 0} (host : Host S) where
  unfoldable pub bump_all : Runtime S → List Urn → Runtime S
  bump_all rt [] = rt
  bump_all rt (u ∷ us) = bump_all (bump_session_local_t host rt u) us

  unfoldable pub broadcast_all : Runtime S → List PersistedRewrite → Runtime S
  broadcast_all rt [] = rt
  broadcast_all rt (pr ∷ prs) = broadcast_all (broadcast host rt pr) prs

  -- From `store.Append` to the end, for the batch `prs` that leads to `next`.
  unfoldable pub persist_batch :
      Runtime S
      → GraphState
      → List EvalResult
      → List Envelope
      → List PersistedRewrite
      → Runtime S × Result KernelError (List EvalResult)
  unfolding sessions_to_bump bump_all broadcast_all seq_after
  persist_batch rt next results envs prs =
      let (stored, failure) = host.store.append prs rt.stored in
      elim failure [
        | some e ↦
            (record rt { log_seq = seq_after rt.log_seq envs; stored = stored }, err (persist e))
        | none ↦ (
          broadcast_all
              (bump_all
                (record rt {
                  log_seq = seq_after rt.log_seq envs;
                  stored = stored;
                  state = next;
                  log = rt.log ++ prs;
                })
                (sessions_to_bump rt.state envs []))
              prs,
          ok results,
        )
      ]

  -- From `fold.EvaluateProgramAt` to the end.
  unfoldable pub commit_batch :
      Runtime S → Time → List Envelope → Runtime S × Result KernelError (List EvalResult)
  unfolding persist_batch persisted_batch times
  commit_batch rt base envs =
      let (next, outcome) = evaluate_program_at (λ i. base + i) rt.state envs (times base 0 envs) in
      elim outcome [
        | err e ↦ (rt, err (program e))
        | ok results ↦ persist_batch rt next results envs (persisted_batch base 0 rt.log_seq envs)
      ]

  -- The checks of a batch; the envelopes with what was injected.
  unfoldable pub admit_batch : Runtime S → Time → List Envelope → Result KernelError (List Envelope)
  unfolding preflight walk_batch
  admit_batch rt base envs = do
    preflight rt.registry rt.state envs
    walk_batch host.print_value rt.registry base 0 (clone rt.state) envs

  -- `ApplyProgram` up to the drift annotations, which are rewrites of their own.
  unfoldable pub apply_program :
      Runtime S → List Envelope → Runtime S × Result KernelError (List EvalResult)
  unfolding admit_batch commit_batch
  apply_program rt envs =
      let base = host.time_at rt.readings in
      elim (admit_batch rt base envs) [
        | err e ↦ (rt, err e)
        | ok injected ↦ commit_batch (record rt { readings = suc rt.readings }) base injected
      ]
