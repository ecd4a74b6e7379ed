-- ===== src/Kernel/Folded/Restart.antt =====
-- internal/kernel/runtime.go, `NewRuntime`, and internal/kernel/mem_store.go.
use moos_kernel.Prelude.{
  Option, none, some, List, [], ◌∷◌, ◌++◌, nat_eq, if◌then◌else◌, Result, ok, err, arith,
}
use moos_kernel.Graph.{Int64, PersistedRewrite}
use moos_kernel.Graph.Numbers.{int64_gt}
use moos_kernel.Fold.Replay.{Replayed, replay}
use moos_kernel.Operad.{Registry}
use moos_kernel.Kernel.{Store, Host, Runtime, KernelError, read_store, replay_failed}
use moos_kernel.Kernel.Folded.{IsStore}

-- `MemStore`
abbrev pub mem_store : Store (List PersistedRewrite)
mem_store = record { append = λ es log. (log ++ es, none); read_all = λ log. ok log }

-- The largest sequence number of the loop of `NewRuntime`, which skips the number 0.
unfoldable pub max_seq : Int64 → List PersistedRewrite → Int64
max_seq best [] = best
max_seq best (pr ∷ entries) =
    if nat_eq pr.log_seq 0
    then max_seq best entries
    else if int64_gt pr.log_seq best
    then max_seq pr.log_seq entries
    else max_seq best entries

module _ {S : Type 0} (host : Host S) where
  -- The end of `NewRuntime`: the runtime on the replayed entries.
  abbrev pub start_on :
      Option Registry → S → List PersistedRewrite → Replayed → Result KernelError (Runtime S)
  start_on registry stored entries (state, some e) = err (replay_failed e)
  start_on registry stored entries (state, none) = ok (record {
    state = state;
    log = entries;
    stored = stored;
    registry = registry;
    log_seq = max_seq 0 entries;
    subscribers = [];
    readings = 0;
  })

  -- `NewRuntime`
  unfoldable pub new_runtime : Option Registry → S → Result KernelError (Runtime S)
  unfolding max_seq
  new_runtime registry stored = elim (host.store.read_all stored) [
    | err e ↦ err (read_store e)
    | ok entries ↦ start_on registry stored entries (replay entries)
  ]

-- The in-memory store keeps the law of the interface.
pub mem_store-IsStore : IsStore mem_store
mem_store-IsStore = record {
  appends = λ s log es s' r a. ground arith;
  keeps = λ s log es s' e r a. absurd (ground arith);
}
