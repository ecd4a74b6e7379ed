-- ===== src/Graph/Copies.antt =====
-- `Clone` and `Rebuild` of a state.
use mathlib.Core.List.{append-nil, append_assoc}
use moos_kernel.Prelude.{
  String, ◌≡◌, refl, sym, ◌∙◌, ap, Bool, true, false, ◌&&◌, ◌||◌, Option, none, some, List, [], ◌∷◌,
  ◌++◌, arith, ◌==◌, eq_iff, eq_refl, Map, Distinct, get, contains, Unique, copy_map, copy_map_same,
  set_add,
}
use moos_kernel.Graph.{Urn, Node, Relation, Index, GraphState}
use moos_kernel.Graph.Index.{
  bucket, IndexOf, IndexOf-ext, IndexOf-add_node, IndexOf-add_endpoint, index_add_node_by_type,
  index_add_endpoint, index_add_relation_endpoints,
}
use moos_kernel.Graph.State.{
  rebuild_nodes, rebuild_relations, rebuild, copy_set, clone_index, clone_node, clone,
}
use moos_kernel.Graph.Consistent.{IsGraph, IsConsistent, has_type, starts_at, ends_at}

set_add_fresh : (u : Urn) (c : List Urn) → contains u c ≡ false → set_add u c ≡ c ++ u ∷ []
unfolding set_add contains
set_add_fresh u [] h = refl
set_add_fresh u (v ∷ c) h = ground (arith, set_add_fresh u c)

contains-append :
    (u : Urn) (xs ys : List Urn) → contains u (xs ++ ys) ≡ (contains u xs || contains u ys)
unfolding contains
contains-append u [] ys = refl
contains-append u (x ∷ xs) ys = ground (arith, contains-append u xs ys)

copy_set-eq-append :
    (c us : List Urn)
    → Unique us
    → ((u : Urn) → contains u us ≡ true → contains u c ≡ false)
    → copy_set c us ≡ c ++ us
unfolding copy_set
copy_set-eq-append c [] d fresh = sym (append-nil c)
copy_set-eq-append c (u ∷ us) d fresh =
    rw (set_add_fresh u c (fresh u (unfold contains in rw eq_refl))) (
      copy_set-eq-append (c ++ u ∷ []) us d.1
        (λ v h. rw contains-append (unfold contains in ground (arith, eq_iff u v, d.0, fresh v)))
      ∙ append_assoc c (u ∷ []) us)

clone_index-eq : (o : Option Index) (f : String → Urn → Bool) → IndexOf o f → clone_index o ≡ o
unfolding clone_index
clone_index-eq none f h = refl
clone_index-eq (some idx) f h = ap some (
    copy_map_same (copy_set []) idx h.keys (λ k set found.
      copy_set-eq-append [] set
        (let at : Unique (bucket k idx) = h.unique k in unfold bucket in rw (found, bucket) at at)
        (λ u m. unfold contains in refl)))

module _ (s : GraphState) (c : IsConsistent s) where
  clone_nodes-eq : copy_map clone_node s.nodes ≡ s.nodes
  clone_nodes-eq = copy_map_same clone_node s.nodes c.nodes_distinct λ u n found.
      unfold clone_node in
      ap (λ ps. record n { properties = ps })
        (copy_map_same (λ p. p) n.properties (c.properties_distinct u n found) (λ k p h. refl))

  -- The copy of a consistent state, to which a rewrite is applied, holds what the state holds: the nodes with their
  -- properties, the relations and the indexes, an index that is nil being nil in the copy too.
  pub clone-eq : clone s ≡ s
  unfolding clone
  clone-eq = λ i. record {
    nodes = clone_nodes-eq i;
    relations = copy_map_same (λ r. r) s.relations c.relations_distinct (λ k r h. refl) i;
    nodes_by_type = clone_index-eq s.nodes_by_type (has_type s.nodes) c.by_type i;
    relations_by_src = clone_index-eq s.relations_by_src (starts_at s.relations) c.by_src i;
    relations_by_tgt = clone_index-eq s.relations_by_tgt (ends_at s.relations) c.by_tgt i;
  }

IndexOf-rebuild_nodes :
    (m : Map Node) (o : Option Index) (f : String → Urn → Bool)
    → Distinct m
    → IndexOf o f
    → IndexOf (rebuild_nodes o m) (λ t u. f t u || has_type m t u)
unfolding rebuild_nodes
IndexOf-rebuild_nodes [] o f d h = IndexOf-ext o f _ (λ k u. unfold get in ground arith) h
IndexOf-rebuild_nodes ((j, n) ∷ m) o f d h =
    let f' = λ (t u : String). n.type_id == t && j == u || f t u in
    IndexOf-ext (rebuild_nodes (index_add_node_by_type o j n.type_id) m)
      (λ t u. f' t u || has_type m t u) _ (λ t u. unfold get in ground (arith, eq_iff j u, d.0))
      (IndexOf-rebuild_nodes m (index_add_node_by_type o j n.type_id) f' d.1
        (IndexOf-add_node o f f' j n.type_id (λ k u. refl) h))

-- Every relation of the map names both its ends.
abbrev NamesEnds : Map Relation → Type 0
NamesEnds [] = Unit
NamesEnds ((u, r) ∷ m) = ((r.src_urn == "") ≡ false) × ((r.tgt_urn == "") ≡ false) × NamesEnds m

IndexOf-rebuild_relations :
    (m : Map Relation) (o p : Option Index) (f g : String → Urn → Bool)
    → Distinct m
    → NamesEnds m
    → IndexOf o f
    → IndexOf p g
    → IndexOf (rebuild_relations o p m).0 (λ e u. f e u || starts_at m e u)
      × IndexOf (rebuild_relations o p m).1 (λ e u. g e u || ends_at m e u)
unfolding rebuild_relations index_add_relation_endpoints
IndexOf-rebuild_relations [] o p f g d e h k = (
  IndexOf-ext o f _ (λ k u. unfold get in ground arith) h,
  IndexOf-ext p g _ (λ k u. unfold get in ground arith) k,
)
IndexOf-rebuild_relations ((j, r) ∷ m) o p f g d e h k =
    let f' = λ (t u : String). r.src_urn == t && j == u || f t u in
    let g' = λ (t u : String). r.tgt_urn == t && j == u || g t u in
    let o' = index_add_endpoint o j r.src_urn in
    let p' = index_add_endpoint p j r.tgt_urn in
    let (left, right) =
      IndexOf-rebuild_relations m o' p' f' g' d.1 e.2
        (IndexOf-add_endpoint o f f' j r.src_urn e.0 (λ t u. refl) h)
        (IndexOf-add_endpoint p g g' j r.tgt_urn e.1 (λ t u. refl) k) in
    (
      IndexOf-ext (rebuild_relations o' p' m).0 (λ t u. f' t u || starts_at m t u) _
          (λ t u. unfold get in ground (arith, eq_iff j u, d.0)) left,
      IndexOf-ext (rebuild_relations o' p' m).1 (λ t u. g' t u || ends_at m t u) _
          (λ t u. unfold get in ground (arith, eq_iff j u, d.0)) right,
    )

NamesEnds-of_get :
    (m : Map Relation)
    → Distinct m
    → ((u : Urn) (r : Relation)
        → get u m ≡ some r
        → ((r.src_urn == "") ≡ false) × ((r.tgt_urn == "") ≡ false))
    → NamesEnds m
NamesEnds-of_get [] d named = tt
NamesEnds-of_get ((j, r) ∷ m) d named =
    let (here, there) = named j r (unfold get in rw eq_refl) in
    (
      here,
      there,
      NamesEnds-of_get m d.1 (λ u q h. named u q (unfold get in ground (arith, eq_iff j u, d.0))),
    )

IndexOf-empty : IndexOf (some []) (λ k u. false)
unfolding bucket get contains
IndexOf-empty = record { members = λ k u. refl; unique = λ k. tt; keys = tt }

-- Of nodes and relations that are sound, whatever the indexes hold, `Rebuild` makes a consistent
-- state with the same nodes and relations.
pub rebuild-IsConsistent :
    (s : GraphState)
    → IsGraph s
    → IsConsistent (rebuild s)
      × ((rebuild s).nodes ≡ s.nodes)
      × ((rebuild s).relations ≡ s.relations)
unfolding rebuild
rebuild-IsConsistent s g =
    let (by_src, by_tgt) =
      IndexOf-rebuild_relations s.relations (some []) (some []) (λ k u. false) (λ k u. false)
        g.relations_distinct
        (NamesEnds-of_get s.relations g.relations_distinct
          (λ u r h. (g.src_named u r h, g.tgt_named u r h)))
        IndexOf-empty IndexOf-empty in
    (
      record {
        is_graph = record {
          nodes_distinct = g.nodes_distinct;
          relations_distinct = g.relations_distinct;
          node_urn = g.node_urn;
          properties_distinct = g.properties_distinct;
          relation_urn = g.relation_urn;
          src_exists = g.src_exists;
          tgt_exists = g.tgt_exists;
          src_named = g.src_named;
          tgt_named = g.tgt_named;
        };
        is_indexed = record {
          by_type =
              IndexOf-rebuild_nodes s.nodes (some []) (λ k u. false) g.nodes_distinct IndexOf-empty;
          by_src = by_src;
          by_tgt = by_tgt;
        };
      },
      refl,
      refl,
    )
