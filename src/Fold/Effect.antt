-- ===== src/Fold/Effect.antt =====
-- What a rewrite does, as a relation: the specification that `evaluateInPlace` implements.
use moos_kernel.Prelude.{
  String, ◌≡◌, refl, inl, inr, ◌⊎◌, ◌↔◌, false, ◌&&◌, none, some, ◌==◌, ok, ◌>>◌, get, arith,
  Bool-cases, Option-cases,
}
use moos_kernel.Graph.{
  Time, RewriteType, add, link, mutate, unlink, other, Property, immutable, Node, Relation,
  Envelope, EvalResult, GraphState,
}
use moos_kernel.Fold.{
  validate_fields, validate_envelope_structure, node_result, relation_result, apply_add, apply_link,
  add_node, add_relation, mutate_node, mutate_additive, mutate_existing, write_property,
  apply_mutate, apply_unlink, remove_relation, dispatch, evaluate_in_place,
}

abbrev pub IsNamed : String → Type 0
IsNamed u = (u == "") ≡ false

-- A rewrite of `s` by `env` at time `t` ends in `s'` and reports `r`.
pub data Effect (s : GraphState) (env : Envelope) (t : Time) (s' : GraphState) (r : EvalResult)
    : Type 0 where
  adds :
      env.rewrite_type ≡ add
      → IsNamed env.actor
      → IsNamed env.node_urn
      → IsNamed env.type_id
      → get env.node_urn s.nodes ≡ none
      → s' ≡ add_node s env t
      → r ≡ node_result env.node_urn
      → Effect s env t s' r
  links :
      (src tgt : Node)
      → env.rewrite_type ≡ link
      → IsNamed env.actor
      → IsNamed env.relation_urn
      → IsNamed env.src_urn
      → IsNamed env.tgt_urn
      → get env.src_urn s.nodes ≡ some src
      → get env.tgt_urn s.nodes ≡ some tgt
      → get env.relation_urn s.relations ≡ none
      → (env.rewrite_category == "WF15" && env.contract_urn == "") ≡ false
      → s' ≡ add_relation s env t
      → r ≡ relation_result env.relation_urn
      → Effect s env t s' r
  extends :
      (n : Node) (spec : Property)
      → env.rewrite_type ≡ mutate
      → IsNamed env.actor
      → IsNamed env.target_urn
      → IsNamed env.field
      → get env.target_urn s.nodes ≡ some n
      → get env.field n.properties ≡ none
      → env.property_spec ≡ some spec
      → s' ≡ write_property s env n spec
      → r ≡ node_result env.target_urn
      → Effect s env t s' r
  mutates :
      (n : Node) (prop : Property)
      → env.rewrite_type ≡ mutate
      → IsNamed env.actor
      → IsNamed env.target_urn
      → IsNamed env.field
      → get env.target_urn s.nodes ≡ some n
      → get env.field n.properties ≡ some prop
      → immutable prop ≡ false
      → (env.expected_version ≡ 0) ⊎ (env.expected_version ≡ n.version)
      → s' ≡ write_property s env n prop
      → r ≡ node_result env.target_urn
      → Effect s env t s' r
  unlinks :
      (old : Relation)
      → env.rewrite_type ≡ unlink
      → IsNamed env.actor
      → IsNamed env.relation_urn
      → get env.relation_urn s.relations ≡ some old
      → s' ≡ remove_relation s env old
      → r ≡ relation_result env.relation_urn
      → Effect s env t s' r

module _ (s : GraphState) (env : Envelope) (t : Time) (s' : GraphState) (r : EvalResult) where
  invert_add :
      env.rewrite_type ≡ add
      → IsNamed env.actor
      → (validate_fields add env >> apply_add s env t) ≡ ok (s', r)
      → Effect s env t s' r
  unfolding validate_fields apply_add
  invert_add kind actor h =
      adds kind actor (ground arith) (ground arith) (ground arith) (ground arith) (ground arith)

  invert_link :
      env.rewrite_type ≡ link
      → IsNamed env.actor
      → (validate_fields link env >> apply_link s env t) ≡ ok (s', r)
      → Effect s env t s' r
  unfolding validate_fields apply_link
  invert_link kind actor h = elim (Option-cases (get env.src_urn s.nodes)) [
    | inl missing ↦ absurd (ground arith)
    | inr (src, at_src) ↦ elim (Option-cases (get env.tgt_urn s.nodes)) [
      | inl missing ↦ absurd (ground arith)
      | inr (tgt, at_tgt) ↦
          links src tgt kind actor (ground arith) (ground arith) (ground arith) at_src at_tgt
            (ground arith) (ground arith) (ground arith) (ground arith)
    ]
  ]

  invert_mutate :
      env.rewrite_type ≡ mutate
      → IsNamed env.actor
      → (validate_fields mutate env >> apply_mutate s env) ≡ ok (s', r)
      → Effect s env t s' r
  unfolding validate_fields apply_mutate mutate_node mutate_additive mutate_existing
  invert_mutate kind actor h = elim (Option-cases (get env.target_urn s.nodes)) [
    | inl missing ↦ absurd (ground arith)
    | inr (n, found) ↦ elim (Option-cases (get env.field n.properties)) [
      | inl absent ↦ elim (Option-cases env.property_spec) [
        | inl nothing ↦ absurd (ground arith)
        | inr (spec, given) ↦
            extends n spec kind actor (ground arith) (ground arith) found absent given
              (ground arith) (ground arith)
      ]
      | inr (prop, present) ↦
          mutates n prop kind actor (ground arith) (ground arith) found present (ground arith)
            (ground arith) (ground arith) (ground arith)
    ]
  ]

  invert_unlink :
      env.rewrite_type ≡ unlink
      → IsNamed env.actor
      → (validate_fields unlink env >> apply_unlink s env) ≡ ok (s', r)
      → Effect s env t s' r
  unfolding validate_fields apply_unlink
  invert_unlink kind actor h = elim (Option-cases (get env.relation_urn s.relations)) [
    | inl missing ↦ absurd (ground arith)
    | inr (old, found) ↦ unlinks old kind actor (ground arith) found (ground arith) (ground arith)
  ]

  invert :
      (kind : RewriteType)
      → env.rewrite_type ≡ kind
      → IsNamed env.actor
      → (validate_fields kind env >> dispatch kind s env t) ≡ ok (s', r)
      → Effect s env t s' r
  unfolding dispatch validate_fields
  invert add e actor h = invert_add e actor h
  invert link e actor h = invert_link e actor h
  invert mutate e actor h = invert_mutate e actor h
  invert unlink e actor h = invert_unlink e actor h
  invert (other x) e actor h = absurd (ground arith)

  sound : evaluate_in_place s env t ≡ ok (s', r) → Effect s env t s' r
  unfolding evaluate_in_place validate_envelope_structure
  sound h = elim (Bool-cases (env.actor == "")) [
    | inl unnamed ↦ absurd (ground arith)
    | inr named ↦ invert env.rewrite_type refl named (rw named at h)
  ]

  complete : Effect s env t s' r → evaluate_in_place s env t ≡ ok (s', r)
  unfolding evaluate_in_place validate_envelope_structure validate_fields dispatch apply_add
      apply_link apply_mutate mutate_node mutate_additive mutate_existing apply_unlink
  complete (adds kind actor node type_id fresh e f) = rw (kind) (ground arith)
  complete (links src tgt kind actor rel src_named tgt_named at_src at_tgt fresh contract e f) =
      rw kind (ground arith)
  complete (extends n spec kind actor target field found absent given e f) = rw kind (ground arith)
  complete (mutates n prop kind actor target field found present live version e f) =
      rw kind (ground arith)
  complete (unlinks old kind actor rel found e f) = rw kind (ground arith)

  -- `evaluateInPlace` succeeds exactly where a rewrite of the specification applies, with that
  -- rewrite's state and result: no other envelope is accepted and none of these is refused.
  pub evaluate_iff : (evaluate_in_place s env t ≡ ok (s', r)) ↔ Effect s env t s' r
  evaluate_iff = (sound, complete)
