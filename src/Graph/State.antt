-- ===== src/Graph/State.antt =====
-- internal/graph/state.go: the folded state, its copies and its read paths.
use moos_kernel.Prelude.{
  Option, none, some, List, [], ◌∷◌, ◌==◌, Map, keys_where, copy_map, set_add,
}
use moos_kernel.Graph.{Urn, TypeId, Node, Relation, Index, GraphState}
use moos_kernel.Graph.Index.{bucket, index_add_node_by_type, index_add_relation_endpoints}

-- `NewGraphState`
unfoldable pub new_graph_state : GraphState
new_graph_state = record {
  nodes = [];
  relations = [];
  nodes_by_type = some [];
  relations_by_src = some [];
  relations_by_tgt = some [];
}

-- `for urn, n := range s.Nodes { IndexAddNodeByType(…) }`
unfoldable pub rebuild_nodes : Option Index → Map Node → Option Index
rebuild_nodes o [] = o
rebuild_nodes o ((u, n) ∷ m) = rebuild_nodes (index_add_node_by_type o u n.type_id) m

-- `for urn, r := range s.Relations { IndexAddRelationEndpoints(…) }`
unfoldable pub rebuild_relations :
    Option Index → Option Index → Map Relation → Option Index × Option Index
rebuild_relations by_src by_tgt [] = (by_src, by_tgt)
rebuild_relations by_src by_tgt ((u, r) ∷ m) =
    let (by_src', by_tgt') = index_add_relation_endpoints by_src by_tgt u r.src_urn r.tgt_urn in
    rebuild_relations by_src' by_tgt' m

-- `Rebuild`
unfoldable pub rebuild : GraphState → GraphState
unfolding rebuild_nodes rebuild_relations
rebuild s =
    let (by_src, by_tgt) = rebuild_relations (some []) (some []) s.relations in
    record s {
      nodes_by_type = rebuild_nodes (some []) s.nodes;
      relations_by_src = by_src;
      relations_by_tgt = by_tgt;
    }

-- `for u := range set { cp[u] = struct{}{} }`, from the copy so far
unfoldable pub copy_set : List Urn → List Urn → List Urn
copy_set c [] = c
copy_set c (u ∷ us) = copy_set (set_add u c) us

-- `cloneURNSetMap`, `cloneURNURNSet`: nil stays nil.
unfoldable pub clone_index : Option Index → Option Index
unfolding copy_set
clone_index none = none
clone_index (some idx) = some (copy_map (copy_set []) idx)

-- The copy of a node has a property map of its own.
unfoldable pub clone_node : Node → Node
clone_node n = record n { properties = copy_map (λ p. p) n.properties }

-- `Clone`
unfoldable pub clone : GraphState → GraphState
unfolding clone_node clone_index
clone s = record {
  nodes = copy_map clone_node s.nodes;
  relations = copy_map (λ r. r) s.relations;
  nodes_by_type = clone_index s.nodes_by_type;
  relations_by_src = clone_index s.relations_by_src;
  relations_by_tgt = clone_index s.relations_by_tgt;
}

-- `NodesOfType`: the index where there is one, else a scan.
unfoldable pub nodes_of_type : GraphState → TypeId → List Urn
nodes_of_type s type_id = elim s.nodes_by_type [
  | none ↦ keys_where (λ n. n.type_id == type_id) s.nodes
  | some idx ↦ bucket type_id idx
]

-- `RelationsFrom`
unfoldable pub relations_from : GraphState → Urn → List Urn
relations_from s src = elim s.relations_by_src [
  | none ↦ keys_where (λ r. r.src_urn == src) s.relations
  | some idx ↦ bucket src idx
]

-- `RelationsTo`
unfoldable pub relations_to : GraphState → Urn → List Urn
relations_to s tgt = elim s.relations_by_tgt [
  | none ↦ keys_where (λ r. r.tgt_urn == tgt) s.relations
  | some idx ↦ bucket tgt idx
]
