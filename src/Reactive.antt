-- ===== src/Reactive.antt =====
-- internal/reactive/engine.go: the predicate of a guard or gate node.
use moos_kernel.Prelude.{
  String, Bool, false, not, ◌||◌, none, some, [], ◌∷◌, ◌==◌, if◌then◌else◌, Map, get, is_some,
  holds,
}
use moos_kernel.Graph.{Urn, Value, str, bool, Node, Relation, GraphState}
pub mod Predicate
pub mod Engine

-- `propStr`: the empty string where the property is missing or no string.
unfoldable pub prop_str : Node → String → String
prop_str n field = elim (get field n.properties) [
  | none ↦ ""
  | some p ↦ elim p.value [ str s ↦ s | _ ↦ "" ]
]

-- `propBool`
unfoldable pub prop_bool : Node → String → Bool
prop_bool n field = elim (get field n.properties) [
  | none ↦ false
  | some p ↦ elim p.value [ bool b ↦ b | _ ↦ false ]
]

-- The loop of `relation_exists`.
unfoldable pub touches : Map Relation → Urn → Bool
touches [] target = false
touches ((u, rel) ∷ rels) target =
    rel.src_urn == target || rel.tgt_urn == target || touches rels target

-- `print_value` is what `fmt.Sprintf("%v", value)` prints.
module _ (print_value : Value → String) where
  -- The switch of `evaluateGuard`.
  unfoldable pub guard_result : GraphState → Node → Bool
  unfolding prop_str touches
  guard_result state guard =
      let kind = prop_str guard "predicate_type" in
      let target = prop_str guard "target_urn" in
      let field = prop_str guard "field" in
      if kind == "node_property"
      then holds
          (λ n.
            holds (λ p. print_value p.value == prop_str guard "expected_value")
              (get field n.properties))
          (get target state.nodes)
      else if kind == "field_set"
      then holds (λ n. is_some (get field n.properties)) (get target state.nodes)
      else if kind == "relation_exists"
      then touches state.relations target
      else if kind == "node_exists"
      then is_some (get target state.nodes)
      else kind == "custom"

  -- `evaluateGuard`, which is `EvaluatePredicate` too.
  unfoldable pub evaluate_predicate : GraphState → Node → Bool
  unfolding guard_result prop_bool
  evaluate_predicate state guard =
      if prop_bool guard "negate" then not (guard_result state guard) else guard_result state guard
