-- ===== src/Kernel/Gates.antt =====
-- internal/kernel/runtime.go, `checkGatesAgainstState`: the gates (M8) on what a rewrite touches.
use moos_kernel.Prelude.{
  String, ◌≡◌, true, not, ◌&&◌, none, some, List, [], ◌∷◌, ◌++◌, ◌==◌, if◌then◌else◌, Map, get,
  contains, Result, ok, err, ◌>>◌,
}
use moos_kernel.Graph.{
  Urn, Value, add, link, mutate, unlink, other, Node, Relation, Envelope, GraphState,
}
use moos_kernel.Kernel.{KernelError, gate_missing, gate_closed}
use moos_kernel.Reactive.{evaluate_predicate}

-- Both ends, without a repetition and without empty names.
unfoldable pub two_ends : Urn → Urn → List Urn
two_ends src tgt =
    (if src == "" then [] else src ∷ [])
    ++ (if not (tgt == "") && not (tgt == src) then tgt ∷ [] else [])

-- The nodes whose gates count.
unfoldable pub gate_targets : Envelope → GraphState → List Urn
unfolding two_ends
gate_targets env state = elim env.rewrite_type [
  | add ↦ []
  | mutate ↦ if env.target_urn == "" then [] else env.target_urn ∷ []
  | link ↦ two_ends env.src_urn env.tgt_urn
  | unlink ↦ elim (get env.relation_urn state.relations) [
    | none ↦ []
    | some rel ↦ two_ends rel.src_urn rel.tgt_urn
  ]
  | other t ↦ []
]

module _ (print_value : Value → String) where
  -- What one relation of the loop says.
  unfoldable pub check_gate : GraphState → List Urn → Relation → Result KernelError (Unit {0})
  unfolding evaluate_predicate contains
  check_gate state targets rel =
      if not (rel.tgt_port == "guarded-by")
      then ok tt
      else if not (contains rel.tgt_urn targets)
      then ok tt
      else elim (get rel.src_urn state.nodes) [
        | none ↦ err (gate_missing rel.src_urn)
        | some gate ↦
            if not (gate.type_id == "gate")
            then ok tt
            else if not (evaluate_predicate print_value state gate)
            then err (gate_closed rel.src_urn)
            else ok tt
      ]

  unfoldable pub check_gates_of :
      GraphState → List Urn → Map Relation → Result KernelError (Unit {0})
  unfolding check_gate
  check_gates_of state targets [] = ok tt
  check_gates_of state targets ((u, rel) ∷ rels) = do
    check_gate state targets rel
    check_gates_of state targets rels

  -- `checkGatesAgainstState`
  unfoldable pub check_gates : Envelope → GraphState → Result KernelError (Unit {0})
  unfolding gate_targets check_gates_of
  check_gates env state = elim (gate_targets env state) [
    | [] ↦ ok tt
    | u ∷ us ↦ check_gates_of state (u ∷ us) state.relations
  ]

  -- A relation lets the rewrite pass: if it guards a target, its source exists and is no gate, or a
  -- gate whose predicate holds.
  abbrev pub LetsPass : GraphState → List Urn → Relation → Type 0
  LetsPass state targets rel =
      rel.tgt_port ≡ "guarded-by"
      → contains rel.tgt_urn targets ≡ true
      → (gate : Node) × (get rel.src_urn state.nodes ≡ some gate)
        × ((gate.type_id == "gate") ≡ true → evaluate_predicate print_value state gate ≡ true)
