-- ===== src/Fold/Identity.antt =====
-- What no rewrite changes: the identity of a node and its immutable properties.
use moos_kernel.Prelude.{
  String, ◌≡◌, refl, ◌∙◌, inl, inr, true, false, some, ◌==◌, get, put, subst, arith, eq_iff,
  Bool-cases, get-put,
}
use moos_kernel.Graph.{Urn, Time, Property, immutable, Node, Envelope, EvalResult, GraphState}
use moos_kernel.Graph.Consistent.{IsConsistent}
use moos_kernel.Fold.{
  new_node, add_node, add_relation, with_value, next_version, write_property, remove_relation,
  evaluate_at,
}
use moos_kernel.Fold.Effect.{Effect, adds, links, extends, mutates, unlinks}
use moos_kernel.Fold.Evaluate.{evaluate_at_cases}

-- A property keeps its metadata, and an immutable one its value.
pub record SameProperty (p q : Property) : Type 0 where
  pub mutability : q.mutability ≡ p.mutability
  pub authority_scope : q.authority_scope ≡ p.authority_scope
  pub stratum_origin : q.stratum_origin ≡ p.stratum_origin
  pub validation_type : q.validation_type ≡ p.validation_type
  pub value : immutable p ≡ true → q.value ≡ p.value

-- The same node at a later time.
pub record Persists (n m : Node) : Type 0 where
  pub urn : m.urn ≡ n.urn
  pub type_id : m.type_id ≡ n.type_id
  pub created_at : m.created_at ≡ n.created_at
  pub properties :
      (f : String) (p : Property)
      → get f n.properties ≡ some p
      → (q : Property) × (get f m.properties ≡ some q) × SameProperty p q

-- Every node of the one state is still in the other.
abbrev pub Later : GraphState → GraphState → Type 0
Later s s' =
    (u : Urn) (n : Node)
    → get u s.nodes ≡ some n
    → (m : Node) × (get u s'.nodes ≡ some m) × Persists n m

SameProperty-refl : (p : Property) → SameProperty p p
SameProperty-refl p = record {
  mutability = refl;
  authority_scope = refl;
  stratum_origin = refl;
  validation_type = refl;
  value = λ _. refl;
}

SameProperty-trans : (p q r : Property) → SameProperty p q → SameProperty q r → SameProperty p r
unfolding immutable
SameProperty-trans p q r a b = record {
  mutability = b.mutability ∙ a.mutability;
  authority_scope = b.authority_scope ∙ a.authority_scope;
  stratum_origin = b.stratum_origin ∙ a.stratum_origin;
  validation_type = b.validation_type ∙ a.validation_type;
  value = λ h. b.value (rw a.mutability h) ∙ a.value h;
}

Persists-refl : (n : Node) → Persists n n
Persists-refl n = record {
  urn = refl;
  type_id = refl;
  created_at = refl;
  properties = λ f p h. (p, h, SameProperty-refl p);
}

Persists-trans : (n m k : Node) → Persists n m → Persists m k → Persists n k
Persists-trans n m k a b = record {
  urn = b.urn ∙ a.urn;
  type_id = b.type_id ∙ a.type_id;
  created_at = b.created_at ∙ a.created_at;
  properties = λ f p h.
      let (q, at, same) = a.properties f p h in
      let (r, at', same') = b.properties f q at in (r, at', SameProperty-trans p q r same same');
}

pub Later-refl : (s : GraphState) → Later s s
Later-refl s u n h = (n, h, Persists-refl n)

pub Later-trans : (s t v : GraphState) → Later s t → Later t v → Later s v
Later-trans s t v a b u n h =
    let (m, at, p) = a u n h in let (k, at', q) = b u m at in (k, at', Persists-trans n m k p q)

-- One node is replaced by a later form of itself.
Later-put :
    (s s' : GraphState) (u : Urn) (n m : Node)
    → s'.nodes ≡ put u m s.nodes
    → get u s.nodes ≡ some n
    → Persists n m
    → Later s s'
Later-put s s' u n m e found same v k h = elim (Bool-cases (u == v)) [
  | inl here ↦ (
    m,
    ground (arith, get-put u v m s.nodes),
    subst (λ (x : Node). Persists x m) (ground (arith, eq_iff u v)) same,
  )
  | inr there ↦ (k, ground (arith, get-put u v m s.nodes), Persists-refl k)
]

written-Persists :
    (env : Envelope) (n : Node) (meta : Property)
    → ((p : Property) → get env.field n.properties ≡ some p → (p ≡ meta) × (immutable p ≡ false))
    → Persists n (record n {
      version = next_version n.version;
      properties = put env.field (with_value meta env.new_value) n.properties;
    })
unfolding with_value
written-Persists env n meta same = record {
  urn = refl;
  type_id = refl;
  created_at = refl;
  properties = λ f p h.
      let q = with_value meta env.new_value in
      elim (Bool-cases (env.field == f)) [
        | inl here ↦
            let (e, live) = same p (ground (arith, eq_iff env.field f)) in
            (
              q,
              ground (arith, get-put env.field f q n.properties),
              record {
                mutability = ground arith;
                authority_scope = ground arith;
                stratum_origin = ground arith;
                validation_type = ground arith;
                value = λ k. absurd (ground arith);
              },
            )
        | inr there ↦ (p, ground (arith, get-put env.field f q n.properties), SameProperty-refl p)
      ];
}

pub Effect-Later :
    {s : GraphState} {env : Envelope} {t : Time} {s' : GraphState} {r : EvalResult}
    → Effect s env t s' r
    → Later s s'
unfolding add_node add_relation write_property remove_relation
Effect-Later {s} {env} {t} {s'} (adds kind actor node type_id fresh e f) = λ u n h. (
  n,
  ground (arith, get-put env.node_urn u (new_node env t) s.nodes, eq_iff env.node_urn u),
  Persists-refl n,
)
Effect-Later {s} {env} (links src tgt kind actor rel sn tn at_src at_tgt fresh k e f) =
    λ u n h. (n, ground arith, Persists-refl n)
Effect-Later {s} {env} {s' = s'} (extends n spec kind actor target field found absent given e f) =
    Later-put s s' env.target_urn n _ (rw e) found
      (written-Persists env n spec (λ p h. absurd (ground arith)))
Effect-Later {s} {env} {s' = s'} (mutates n prop kind actor target field found present live v e f) =
    Later-put s s' env.target_urn n _ (rw e) found
      (written-Persists env n prop (λ p h. (ground arith, ground arith)))
Effect-Later {s} {env} (unlinks old kind actor rel found e f) =
    λ u n h. (n, ground arith, Persists-refl n)

-- No rewrite of a consistent state removes a node or changes its URN, type or creation time, the
-- metadata of a property or the value of an immutable property; a refused rewrite does not either.
pub evaluate_at-Later :
    (s : GraphState) (env : Envelope) (t : Time) → IsConsistent s → Later s (evaluate_at s env t).0
evaluate_at-Later s env t c = elim (evaluate_at_cases s env t c) [
  | inl (s', r, e, effect) ↦ rw e (Effect-Later effect)
  | inr (x, e, _) ↦ rw e (Later-refl s)
]
