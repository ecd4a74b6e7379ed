-- ===== src/Graph/Consistent.antt =====
-- The invariant of the folded state: what a GraphState must satisfy for its read paths to be right.
use moos_kernel.Prelude.{
  String, ◌≡◌, refl, Bool, true, false, Option, none, some, List, arith, ◌==◌, Map, Distinct, get,
  holds, is_some, keys_where, contains, Unique, contains-keys_where, Unique-keys_where,
}
use moos_kernel.Graph.{Urn, TypeId, Node, Relation, Index, GraphState}
use moos_kernel.Graph.Index.{bucket, IndexOf}
use moos_kernel.Graph.State.{nodes_of_type, relations_from, relations_to, new_graph_state}

-- Nodes and relations: they stand under their own URNs, and both ends of a relation exist.
pub record IsGraph (s : GraphState) : Type 0 where
  pub nodes_distinct : Distinct s.nodes
  pub relations_distinct : Distinct s.relations
  pub node_urn : (u : Urn) (n : Node) → get u s.nodes ≡ some n → n.urn ≡ u
  pub properties_distinct : (u : Urn) (n : Node) → get u s.nodes ≡ some n → Distinct n.properties
  pub relation_urn : (u : Urn) (r : Relation) → get u s.relations ≡ some r → r.urn ≡ u
  pub src_exists :
      (u : Urn) (r : Relation) → get u s.relations ≡ some r → is_some (get r.src_urn s.nodes) ≡ true
  pub tgt_exists :
      (u : Urn) (r : Relation) → get u s.relations ≡ some r → is_some (get r.tgt_urn s.nodes) ≡ true
  pub src_named : (u : Urn) (r : Relation) → get u s.relations ≡ some r → (r.src_urn == "") ≡ false
  pub tgt_named : (u : Urn) (r : Relation) → get u s.relations ≡ some r → (r.tgt_urn == "") ≡ false

abbrev pub has_type : Map Node → TypeId → Urn → Bool
has_type nodes t u = holds (λ n. n.type_id == t) (get u nodes)

abbrev pub starts_at : Map Relation → Urn → Urn → Bool
starts_at relations e u = holds (λ r. r.src_urn == e) (get u relations)

abbrev pub ends_at : Map Relation → Urn → Urn → Bool
ends_at relations e u = holds (λ r. r.tgt_urn == e) (get u relations)

-- Each index that is not nil says what its map says.
pub record IsIndexed (s : GraphState) : Type 0 where
  pub by_type : IndexOf s.nodes_by_type (has_type s.nodes)
  pub by_src : IndexOf s.relations_by_src (starts_at s.relations)
  pub by_tgt : IndexOf s.relations_by_tgt (ends_at s.relations)

pub record IsConsistent (s : GraphState) : Type 0 where
  pub is_graph : IsGraph s
  pub open is_graph use *
  pub is_indexed : IsIndexed s
  pub open is_indexed use *

module _ {V : Type 0} (p : String → V → Bool) (m : Map V) (d : Distinct m) where
  contains-read :
      (o : Option Index) (k u : String)
      → IndexOf o (λ k u. holds (p k) (get u m))
      → contains u
          (elim o as (λ _. List Urn) [ none ↦ keys_where (p k) m | some idx ↦ bucket k idx ])
        ≡ holds (p k) (get u m)
  contains-read none k u h = contains-keys_where (p k) u m d
  contains-read (some idx) k u h = h.members k u

  Unique-read :
      (o : Option Index) (k : String)
      → IndexOf o (λ k u. holds (p k) (get u m))
      → Unique (elim o as (λ _. List Urn) [ none ↦ keys_where (p k) m | some idx ↦ bucket k idx ])
  Unique-read none k h = Unique-keys_where (p k) m d
  Unique-read (some idx) k h = h.unique k

module _ (s : GraphState) (c : IsConsistent s) where
  pub contains-nodes_of_type :
      (t : TypeId) (u : Urn) → contains u (nodes_of_type s t) ≡ has_type s.nodes t u
  unfolding nodes_of_type
  contains-nodes_of_type t u =
      contains-read (λ k n. n.type_id == k) s.nodes c.nodes_distinct s.nodes_by_type t u c.by_type

  pub contains-relations_from :
      (e u : Urn) → contains u (relations_from s e) ≡ starts_at s.relations e u
  unfolding relations_from
  contains-relations_from e u =
      contains-read (λ k r. r.src_urn == k) s.relations c.relations_distinct s.relations_by_src e u
        c.by_src

  pub contains-relations_to : (e u : Urn) → contains u (relations_to s e) ≡ ends_at s.relations e u
  unfolding relations_to
  contains-relations_to e u =
      contains-read (λ k r. r.tgt_urn == k) s.relations c.relations_distinct s.relations_by_tgt e u
        c.by_tgt

  pub Unique-relations_from : (e : Urn) → Unique (relations_from s e)
  unfolding relations_from
  Unique-relations_from e =
      Unique-read (λ k r. r.src_urn == k) s.relations c.relations_distinct s.relations_by_src e
        c.by_src

  pub Unique-relations_to : (e : Urn) → Unique (relations_to s e)
  unfolding relations_to
  Unique-relations_to e =
      Unique-read (λ k r. r.tgt_urn == k) s.relations c.relations_distinct s.relations_by_tgt e
        c.by_tgt

  pub Unique-nodes_of_type : (t : TypeId) → Unique (nodes_of_type s t)
  unfolding nodes_of_type
  Unique-nodes_of_type t =
      Unique-read (λ k n. n.type_id == k) s.nodes c.nodes_distinct s.nodes_by_type t c.by_type

pub new-IsConsistent : IsConsistent new_graph_state
unfolding new_graph_state bucket get contains
new-IsConsistent = record {
  is_graph = record {
    nodes_distinct = tt;
    relations_distinct = tt;
    node_urn = λ u n h. cc;
    properties_distinct = λ u n h. absurd (ground arith);
    relation_urn = λ u r h. cc;
    src_exists = λ u r h. cc;
    tgt_exists = λ u r h. cc;
    src_named = λ u r h. cc;
    tgt_named = λ u r h. cc;
  };
  is_indexed = record {
    by_type = record { members = λ k u. refl; unique = λ k. tt; keys = tt };
    by_src = record { members = λ k u. refl; unique = λ k. tt; keys = tt };
    by_tgt = record { members = λ k u. refl; unique = λ k. tt; keys = tt };
  };
}

pub reads_exact :
    (s : GraphState)
    → IsConsistent s
    → (k u : String)
    → ((contains u (nodes_of_type s k) ≡ has_type s.nodes k u) × Unique (nodes_of_type s k))
      × ((contains u (relations_from s k) ≡ starts_at s.relations k u)
          × Unique (relations_from s k))
      × ((contains u (relations_to s k) ≡ ends_at s.relations k u) × Unique (relations_to s k))
reads_exact s c k u = (
  (contains-nodes_of_type s c k u, Unique-nodes_of_type s c k),
  (contains-relations_from s c k u, Unique-relations_from s c k),
  (contains-relations_to s c k u, Unique-relations_to s c k),
)
