-- ===== src/Fold/Replay.antt =====
-- internal/fold/replay.go: the state as the fold of the log.
use moos_kernel.Prelude.{
  ℕ, suc, Bool, true, false, Option, none, some, List, [], ◌∷◌, nat_eq, if◌then◌else◌, ok, err,
}
use moos_kernel.Graph.{
  Time, Int64, RewriteType, add, link, mutate, unlink, PersistedRewrite, GraphState,
}
use moos_kernel.Graph.State.{new_graph_state}
use moos_kernel.Fold.{
  FoldError, node_exists, relation_exists, relation_not_found, version_conflict, evaluate_at,
}

pub record ReplayError : Type 0 where
  pub seq : Int64
  pub index : ℕ
  pub cause : FoldError

-- `isIdempotentSkip`: the error that a second application of the rewrite may give.
unfoldable pub is_idempotent_skip : RewriteType → FoldError → Bool
is_idempotent_skip add (node_exists _) = true
is_idempotent_skip link (relation_exists _) = true
is_idempotent_skip unlink (relation_not_found _) = true
is_idempotent_skip mutate (version_conflict _ _) = true
is_idempotent_skip _ _ = false

-- `replayAppliedAt`: the zero time is the number 0.
unfoldable pub replay_applied_at : PersistedRewrite → Time
replay_applied_at pr =
    if nat_eq pr.applied_at 0
    then (if nat_eq pr.timestamp 0 then 0 else pr.timestamp)
    else pr.applied_at

abbrev pub Replayed : Type 0
Replayed = GraphState × Option ReplayError

-- The loop of `Replay` from the entry at `index`.
unfoldable pub replay_loop : ℕ → GraphState → List PersistedRewrite → Replayed
replay_loop index state [] = (state, none)
replay_loop index state (pr ∷ entries) =
    let (next, outcome) = evaluate_at state pr.envelope (replay_applied_at pr) in
    elim outcome [
      | ok _ ↦ replay_loop (suc index) next entries
      | err e ↦
          let rest = replay_loop (suc index) state entries in
          if is_idempotent_skip pr.envelope.rewrite_type e
          then rest
          else (state, some (record { seq = pr.log_seq; index = index; cause = e }))
    ]

-- `Replay`
unfoldable pub replay : List PersistedRewrite → Replayed
unfolding new_graph_state
replay entries = replay_loop 0 new_graph_state entries
