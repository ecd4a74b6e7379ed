-- ===== src/Kernel.antt =====
-- internal/kernel: the runtime around the fold. `S` is the state of the store behind the interface.
use moos_kernel.Prelude.{ℕ, String, Option, none, some, List, [], ◌∷◌, ◌++◌, Map, Result, ok, err}
use moos_kernel.Graph.{Urn, Time, Int64, Value, Envelope, EvalResult, PersistedRewrite, GraphState}
use moos_kernel.Fold.{FoldError}
use moos_kernel.Fold.Program.{ProgramError}
use moos_kernel.Fold.Replay.{ReplayError}
use moos_kernel.Operad.{Registry, OperadError}
pub mod Gates
pub mod Liveness
pub mod Commit
pub mod Apply
pub mod Program
pub mod Says
pub mod Staging
pub mod Reactions
pub mod Drift
pub mod Sweep
pub mod Integrity
pub mod Folded

-- The `Store` interface. An `Append` that fails may still have changed the store.
pub record Store (S : Type 0) : Type 0 where
  pub append : List PersistedRewrite → S → S × Option String
  pub read_all : S → Result String (List PersistedRewrite)

-- What the runtime takes from its host: the store, the clock (its n-th reading) and Go's printing.
pub record Host (S : Type 0) : Type 0 where
  pub store : Store S
  pub time_at : ℕ → Time
  pub print_value : Value → String

-- `Runtime`: the fields that a rewrite reads or writes. A subscriber is the list of what its channel
-- holds; `readings` counts the readings of the clock.
pub record Runtime (S : Type 0) : Type 0 where
  pub state : GraphState
  pub log : List PersistedRewrite
  pub stored : S
  pub registry : Option Registry
  pub log_seq : Int64
  pub subscribers : Map (List PersistedRewrite)
  pub readings : ℕ

pub data KernelError : Type 0 where
  operad : OperadError → KernelError
  fold : FoldError → KernelError
  program : ProgramError → KernelError
  persist : String → KernelError
  session_mismatch session_ambiguous session_absent : Urn → KernelError
  not_admin : Urn → KernelError
  gate_missing gate_closed : Urn → KernelError
  read_store : String → KernelError
  replay_failed : ReplayError → KernelError
