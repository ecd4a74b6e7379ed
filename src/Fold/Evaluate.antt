-- ===== src/Fold/Evaluate.antt =====
-- Every rewrite keeps the folded state consistent.
use moos_kernel.Prelude.{
  String, ◌≡◌, refl, inl, inr, ◌⊎◌, true, false, Option, none, some, ◌==◌, ok, err, Map, get, put,
  delete, is_some, arith, eq_iff, Distinct-copy_map, Result-cases, get-put, get-delete,
  Distinct-put, Distinct-delete, Distinct, get-put_cases, get-delete-some, subst,
}
use moos_kernel.Graph.{Urn, Time, Property, Node, Relation, Envelope, EvalResult, Index, GraphState}
use moos_kernel.Graph.Index.{
  IndexOf, IndexOf-ext, IndexOf-add_node, IndexOf-add_endpoint, IndexOf-remove_endpoint,
  index_add_node_by_type, index_add_endpoint, index_remove_endpoint, index_add_relation_endpoints,
  index_remove_relation_endpoints,
}
use moos_kernel.Graph.Consistent.{IsConsistent, has_type, starts_at, ends_at}
use moos_kernel.Graph.Copies.{clone-eq}
use moos_kernel.Fold.{
  FoldError, new_node, new_relation, add_node, add_relation, write_property, with_value,
  next_version, remove_relation, evaluate_in_place, evaluate_at, finish,
}
use moos_kernel.Fold.Effect.{IsNamed, Effect, adds, links, extends, mutates, unlinks, evaluate_iff}

-- A property is on every consistent state that differs by one node.
put_node-IsConsistent :
    (s : GraphState) (u : Urn) (n : Node) (o : Option Index)
    → IsConsistent s
    → n.urn ≡ u
    → Distinct n.properties
    → IndexOf o (has_type (put u n s.nodes))
    → IsConsistent (record s { nodes = put u n s.nodes; nodes_by_type = o })
put_node-IsConsistent s u n o c named d by_type =
    let look = λ (v : String). get-put u v n s.nodes in
    record {
      is_graph = record {
        nodes_distinct = Distinct-put u n s.nodes c.nodes_distinct;
        relations_distinct = c.relations_distinct;
        node_urn = λ v m h. ground (arith, look v, eq_iff u v, c.node_urn v m);
        properties_distinct = λ v m h. elim (get-put_cases u v n m s.nodes h) [
          | inl (_, e) ↦ subst (λ (x : Node). Distinct x.properties) e d
          | inr old ↦ c.properties_distinct v m old
        ];
        relation_urn = c.relation_urn;
        src_exists = λ v r h. ground (arith, look r.src_urn, c.src_exists v r);
        tgt_exists = λ v r h. ground (arith, look r.tgt_urn, c.tgt_exists v r);
        src_named = c.src_named;
        tgt_named = c.tgt_named;
      };
      is_indexed = record { by_type = by_type; by_src = c.by_src; by_tgt = c.by_tgt };
    }

-- The same for the relations, where each that is left was there or is sound.
relations-IsConsistent :
    (s : GraphState) (m : Map Relation) (o p : Option Index)
    → IsConsistent s
    → Distinct m
    → ((u : Urn) (r : Relation)
        → get u m ≡ some r
        → (get u s.relations ≡ some r)
          ⊎ (r.urn ≡ u)
            × (is_some (get r.src_urn s.nodes) ≡ true)
            × (is_some (get r.tgt_urn s.nodes) ≡ true)
            × ((r.src_urn == "") ≡ false)
            × ((r.tgt_urn == "") ≡ false))
    → IndexOf o (starts_at m)
    → IndexOf p (ends_at m)
    → IsConsistent (record s { relations = m; relations_by_src = o; relations_by_tgt = p })
relations-IsConsistent s m o p c d sound by_src by_tgt = record {
  is_graph = record {
    nodes_distinct = c.nodes_distinct;
    relations_distinct = d;
    node_urn = c.node_urn;
    properties_distinct = c.properties_distinct;
    relation_urn = λ u r h. ground (arith, sound u r h, c.relation_urn u r);
    src_exists = λ u r h. ground (arith, sound u r h, c.src_exists u r);
    tgt_exists = λ u r h. ground (arith, sound u r h, c.tgt_exists u r);
    src_named = λ u r h. ground (arith, sound u r h, c.src_named u r);
    tgt_named = λ u r h. ground (arith, sound u r h, c.tgt_named u r);
  };
  is_indexed = record { by_type = c.by_type; by_src = by_src; by_tgt = by_tgt };
}

module _ (s : GraphState) (env : Envelope) (c : IsConsistent s) where
  add_node-IsConsistent :
      (t : Time) → get env.node_urn s.nodes ≡ none → IsConsistent (add_node s env t)
  unfolding add_node new_node
  add_node-IsConsistent t fresh =
      put_node-IsConsistent s env.node_urn (new_node env t)
        (index_add_node_by_type s.nodes_by_type env.node_urn env.type_id) c refl
        (Distinct-copy_map (λ p. p) env.properties)
        (IndexOf-add_node s.nodes_by_type (has_type s.nodes)
          (has_type (put env.node_urn (new_node env t) s.nodes)) env.node_urn env.type_id
          (λ k u.
            ground (
              arith,
              fresh,
              get-put env.node_urn u (new_node env t) s.nodes,
              eq_iff env.node_urn u,
            ))
          c.by_type)

  add_relation-IsConsistent :
      (t : Time) (src tgt : Node)
      → IsNamed env.src_urn
      → IsNamed env.tgt_urn
      → get env.src_urn s.nodes ≡ some src
      → get env.tgt_urn s.nodes ≡ some tgt
      → get env.relation_urn s.relations ≡ none
      → IsConsistent (add_relation s env t)
  unfolding add_relation new_relation index_add_relation_endpoints
  add_relation-IsConsistent t src tgt src_named tgt_named at_src at_tgt fresh =
      let r = new_relation env t in
      let m = put env.relation_urn r s.relations in
      let look = λ (u : String). get-put env.relation_urn u r s.relations in
      relations-IsConsistent s m
        (index_add_endpoint s.relations_by_src env.relation_urn env.src_urn)
        (index_add_endpoint s.relations_by_tgt env.relation_urn env.tgt_urn) c
        (Distinct-put env.relation_urn r s.relations c.relations_distinct)
        (λ u q h. elim (get-put_cases env.relation_urn u r q s.relations h) [
          | inl (e, same) ↦ inr (ground arith)
          | inr old ↦ inl old
        ])
        (IndexOf-add_endpoint s.relations_by_src (starts_at s.relations) (starts_at m)
          env.relation_urn env.src_urn src_named
          (λ k u. ground (arith, look u, eq_iff env.relation_urn u)) c.by_src)
        (IndexOf-add_endpoint s.relations_by_tgt (ends_at s.relations) (ends_at m) env.relation_urn
          env.tgt_urn tgt_named (λ k u. ground (arith, look u, eq_iff env.relation_urn u)) c.by_tgt)

  write_property-IsConsistent :
      (n : Node) (meta : Property)
      → get env.target_urn s.nodes ≡ some n
      → IsConsistent (write_property s env n meta)
  unfolding write_property
  write_property-IsConsistent n meta found =
      let ps = put env.field (with_value meta env.new_value) n.properties in
      let n' = record n { version = next_version n.version; properties = ps } in
      put_node-IsConsistent s env.target_urn n' s.nodes_by_type c
        (c.node_urn env.target_urn n found)
        (Distinct-put env.field (with_value meta env.new_value) n.properties
          (c.properties_distinct env.target_urn n found))
        (IndexOf-ext s.nodes_by_type (has_type s.nodes) _
          (λ k u. ground (arith, get-put env.target_urn u n' s.nodes, eq_iff env.target_urn u))
          c.by_type)

  remove_relation-IsConsistent :
      (r : Relation)
      → get env.relation_urn s.relations ≡ some r
      → IsConsistent (remove_relation s env r)
  unfolding remove_relation index_remove_relation_endpoints
  remove_relation-IsConsistent r found =
      let m = delete env.relation_urn s.relations in
      let look = λ (u : String). get-delete env.relation_urn u s.relations in
      relations-IsConsistent s m
        (index_remove_endpoint s.relations_by_src env.relation_urn r.src_urn)
        (index_remove_endpoint s.relations_by_tgt env.relation_urn r.tgt_urn) c
        (Distinct-delete env.relation_urn s.relations c.relations_distinct)
        (λ u q h. inl (get-delete-some env.relation_urn u q s.relations h))
        (IndexOf-remove_endpoint s.relations_by_src (starts_at s.relations) (starts_at m)
          env.relation_urn r.src_urn (c.src_named env.relation_urn r found)
          (λ k u. ground (arith, look u, eq_iff env.relation_urn u)) c.by_src)
        (IndexOf-remove_endpoint s.relations_by_tgt (ends_at s.relations) (ends_at m)
          env.relation_urn r.tgt_urn (c.tgt_named env.relation_urn r found)
          (λ k u. ground (arith, look u, eq_iff env.relation_urn u)) c.by_tgt)

pub Effect-IsConsistent :
    {s : GraphState} {env : Envelope} {t : Time} {s' : GraphState} {r : EvalResult}
    → IsConsistent s
    → Effect s env t s' r
    → IsConsistent s'
Effect-IsConsistent {s} {env} {t} c (adds kind actor node type_id fresh e f) =
    rw e (add_node-IsConsistent s env c t fresh)
Effect-IsConsistent {s} {env} {t} c (links src tgt kind actor rel sn tn at_src at_tgt fresh k e f) =
    rw e (add_relation-IsConsistent s env c t src tgt sn tn at_src at_tgt fresh)
Effect-IsConsistent {s} {env} c (extends n spec kind actor target field found absent given e f) =
    rw e (write_property-IsConsistent s env c n spec found)
Effect-IsConsistent {s} {env} c (mutates n prop kind actor target field found present live v e f) =
    rw e (write_property-IsConsistent s env c n prop found)
Effect-IsConsistent {s} {env} c (unlinks old kind actor rel found e f) =
    rw e (remove_relation-IsConsistent s env c old found)

-- On a consistent state `EvaluateAt` either leaves the state with an error or makes one effect.
pub evaluate_at_cases :
    (s : GraphState) (env : Envelope) (t : Time)
    → IsConsistent s
    → ((s' : GraphState) × (r : EvalResult) × (evaluate_at s env t ≡ (s', ok r))
        × Effect s env t s' r)
      ⊎ ((e : FoldError) × (evaluate_at s env t ≡ (s, err e)) × (evaluate_in_place s env t ≡ err e))
unfolding evaluate_at
evaluate_at_cases s env t c = rw (clone-eq s c) (go (Result-cases (evaluate_in_place s env t)))
  where
    go :
        ((a : GraphState × EvalResult) × (evaluate_in_place s env t ≡ ok a))
          ⊎ ((e : FoldError) × (evaluate_in_place s env t ≡ err e))
        → ((s' : GraphState) × (r : EvalResult) × (finish s (evaluate_in_place s env t)
              ≡ (s', ok r))
            × Effect s env t s' r)
          ⊎ ((e : FoldError) × (finish s (evaluate_in_place s env t) ≡ (s, err e))
              × (evaluate_in_place s env t ≡ err e))
    go (inl ((s', r), h)) = inl (s', r, rw h, (evaluate_iff s env t s' r).0 h)
    go (inr (e, h)) = inr (e, rw h, h)

-- A rewrite, refused or not, takes a consistent state to a consistent one.
pub evaluate_at-IsConsistent :
    (s : GraphState) (env : Envelope) (t : Time)
    → IsConsistent s
    → IsConsistent (evaluate_at s env t).0
evaluate_at-IsConsistent s env t c = elim (evaluate_at_cases s env t c) [
  | inl (s', r, e, effect) ↦ rw e (Effect-IsConsistent c effect)
  | inr (x, e, _) ↦ rw e c
]

-- The converse of `evaluate_at_cases`.
pub evaluate_at-Effect :
    (s : GraphState) (env : Envelope) (t : Time) (s' : GraphState) (r : EvalResult)
    → IsConsistent s
    → Effect s env t s' r
    → evaluate_at s env t ≡ (s', ok r)
unfolding evaluate_at
evaluate_at-Effect s env t s' r c effect = rw (clone-eq s c, (evaluate_iff s env t s' r).1 effect)
