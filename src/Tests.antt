-- ===== src/Tests.antt =====
-- The theorems at concrete inputs: a small log, its state, a registry and a kernel over the in-memory
-- store.
pub mod Samples
pub mod Folds
pub mod Grammar
pub mod Runtimes
pub mod Restarts
pub mod Hooks
pub mod Reports
pub mod Loading
