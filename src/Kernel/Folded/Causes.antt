-- ===== src/Kernel/Folded/Causes.antt =====
-- internal/kernel/runtime.go: the graph of causes under `Apply`.
use moos_kernel.Prelude.{◌≡◌, true, is_some}
use moos_kernel.Graph.{GraphState}
use moos_kernel.Operad.Causal.Acyclic.{IsAcyclic}

-- The causes have no cycle, and the index that the check reads is there.
abbrev pub IsCausal : GraphState → Type 0
IsCausal s = IsAcyclic s × (is_some s.relations_by_src ≡ true)
