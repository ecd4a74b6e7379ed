-- ===== src/Fold/Versions.antt =====
-- Versions and the optimistic check of a MUTATE.
use moos_kernel.Prelude.{
  ℕ, ◌^◌, ◌<◌, ◌≡◌, ◌≢◌, sym, ◌∙◌, subst, inl, inr, false, some, ok, err, nat_eq, arith, Bool-cases,
  get, put, get-put_self,
}
use moos_kernel.Graph.{Time, mutate, Envelope, EvalResult, Node, Property, immutable, GraphState}
use moos_kernel.Fold.{
  version_conflict, with_value, next_version, write_property, validate_fields,
  validate_envelope_structure, apply_mutate, mutate_node, mutate_existing, dispatch,
  evaluate_in_place,
}
use moos_kernel.Fold.Effect.{IsNamed}

-- A MUTATE of a property that is there, well formed and not immutable.
pub record IsMutation (s : GraphState) (env : Envelope) (n : Node) (prop : Property) : Type 0 where
  pub kind : env.rewrite_type ≡ mutate
  pub actor : IsNamed env.actor
  pub target : IsNamed env.target_urn
  pub field : IsNamed env.field
  pub at : get env.target_urn s.nodes ≡ some n
  pub present : get env.field n.properties ≡ some prop
  pub live : immutable prop ≡ false

module _ (s : GraphState) (env : Envelope) (n : Node) (prop : Property) (t : Time)
    (m : IsMutation s env n prop) where
  mutation-eq : evaluate_in_place s env t ≡ mutate_existing s env n prop
  unfolding evaluate_in_place validate_envelope_structure validate_fields dispatch apply_mutate
      mutate_node
  mutation-eq = rw m.kind (ground (arith, m.at, m.present))

  pub mutate_checks_version :
      env.expected_version ≢ 0
      → ((n.version ≡ env.expected_version)
          → (evaluate_in_place s env t)
            ≡ ok (
              write_property s env n prop,
              record { affected_node_urn = env.target_urn; affected_relation_urn = "" },
            ))
        × ((n.version ≢ env.expected_version)
            → evaluate_in_place s env t ≡ err (version_conflict env.expected_version n.version))
  unfolding mutate_existing
  mutate_checks_version expects = (
    λ same. mutation-eq ∙ ground (arith, m.live),
    λ differs. mutation-eq ∙ ground (arith, m.live),
  )

-- The node after the write.
abbrev written : Envelope → Node → Property → Node
written env n prop = record n {
  version = next_version n.version;
  properties = put env.field (with_value prop env.new_value) n.properties;
}

IsMutation-written :
    (s : GraphState) (env : Envelope) (n : Node) (prop : Property)
    → IsMutation s env n prop
    → IsMutation
        (write_property s env n prop)
        env
        (written env n prop)
        (with_value prop env.new_value)
unfolding write_property with_value immutable
IsMutation-written s env n prop m = record {
  kind = m.kind;
  actor = m.actor;
  target = m.target;
  field = m.field;
  at = get-put_self env.target_urn (written env n prop) s.nodes;
  present = get-put_self env.field (with_value prop env.new_value) n.properties;
  live = m.live;
}

next-ne : (v : ℕ) → v < 2 ^ 64 → next_version v ≢ v
next-ne v h = omega arith

-- A well-formed MUTATE of a property that is on the node and not immutable, if it expects a version
-- and the node's version is an int64, is applied once: sent again to the state that it left, whose
-- version is one more, it is refused with a version conflict.
pub mutate_once :
    (s s' : GraphState) (env : Envelope) (n : Node) (prop : Property) (t t' : Time) (r : EvalResult)
    → IsMutation s env n prop
    → env.expected_version ≢ 0
    → n.version < 2 ^ 64
    → evaluate_in_place s env t ≡ ok (s', r)
    → evaluate_in_place s' env t'
      ≡ err (version_conflict env.expected_version (next_version env.expected_version))
mutate_once s s' env n prop t t' r m expects bound h =
    elim (Bool-cases (nat_eq n.version env.expected_version)) [
      | inr differs ↦
          absurd (ground (arith, (mutate_checks_version s env n prop t m expects).1 (ground arith)))
      | inl same ↦
          let v : n.version ≡ env.expected_version = ground arith in
          let wrote = (mutate_checks_version s env n prop t m expects).0 v in
          let e : write_property s env n prop ≡ s' = ground arith in
          let again =
            (mutate_checks_version (write_property s env n prop) env (written env n prop)
                (with_value prop env.new_value) t' (IsMutation-written s env n prop m) expects).1
              (λ clash. next-ne n.version bound (clash ∙ sym v)) in
          subst
            (λ (x : GraphState).
              evaluate_in_place x env t'
              ≡ err (version_conflict env.expected_version (next_version env.expected_version)))
            e (again ∙ rw v)
    ]
