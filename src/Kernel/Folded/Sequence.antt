-- ===== src/Kernel/Folded/Sequence.antt =====
-- internal/kernel/runtime.go, `NewRuntime`: the sequence numbers that a restarted runtime gives out.
use mathlib.Core.List.{Memᴰ}
use mathlib.Core.List.Memᴰ
use moos_kernel.Prelude.{ℕ, List}

-- The largest int64.
abbrev pub top : ℕ
top = 9223372036854775807
