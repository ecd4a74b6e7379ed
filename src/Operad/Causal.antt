-- ===== src/Operad/Causal.antt =====
-- internal/operad/validate.go: `ValidateCausalAcyclic`, a breadth-first search along the WF21 edges.
pub mod Edges
pub mod Search
pub mod Acyclic
use moos_kernel.Prelude.{
  ℕ, zero, suc, ◌+◌, String, Bool, true, false, not, ◌&&◌, ◌||◌, Option, none, some, List, [], ◌∷◌,
  ◌++◌, ◌==◌, if◌then◌else◌, length, Result, ok, err, Map, get, contains,
}
use moos_kernel.Graph.{Urn, RewriteType, link, Relation, Envelope, GraphState}
use moos_kernel.Graph.Index.{bucket}
use moos_kernel.Operad.{OperadError, self_cause, causal_cycle, unfinished_search, same_type}
use moos_kernel.Operad.Validate.{Check}

-- `rel` is an edge in the causes direction.
abbrev pub is_cause : Relation → Bool
is_cause rel = rel.rewrite_category == "WF21" && rel.src_port == "causes"

-- What the loop body does with one relation of the bucket.
pub data Visit : Type 0 where
  skip reached : Visit
  follow : Urn → Visit

unfoldable pub visit_edge : Urn → List Urn → Option Relation → Visit
visit_edge src visited none = skip
visit_edge src visited (some rel) =
    if not (is_cause rel)
    then skip
    else if rel.tgt_urn == src
    then reached
    else if contains rel.tgt_urn visited
    then skip
    else follow rel.tgt_urn

-- The outcome of the inner loop: the cycle, or the visited set and the queue.
pub data Walk : Type 0 where
  closes : Walk
  goes_on : List Urn → List Urn → Walk

-- The loop over the relations that start at the current node.
unfoldable pub walk_edges : Map Relation → Urn → List Urn → List Urn → List Urn → Walk
unfolding visit_edge
walk_edges relations src [] visited queue = goes_on visited queue
walk_edges relations src (u ∷ us) visited queue = elim (visit_edge src visited (get u relations)) [
  | skip ↦ walk_edges relations src us visited queue
  | reached ↦ closes
  | follow tgt ↦ walk_edges relations src us (tgt ∷ visited) (queue ++ tgt ∷ [])
]

-- `state.RelationsBySrc[cur]`: the index itself, not `RelationsFrom`; a nil index reads as empty.
unfoldable pub edges_from : GraphState → Urn → List Urn
edges_from s cur = elim s.relations_by_src [ none ↦ [] | some idx ↦ bucket cur idx ]

-- The outer loop: `some true` where it finds `src`, `none` where the fuel runs out.
unfoldable pub search_cycle : ℕ → GraphState → Urn → List Urn → List Urn → Option Bool
unfolding walk_edges edges_from
search_cycle fuel s src visited [] = some false
search_cycle zero s src visited (cur ∷ queue) = none
search_cycle (suc fuel) s src visited (cur ∷ queue) =
    elim (walk_edges s.relations src (edges_from s cur) visited queue) [
      | closes ↦ some true
      | goes_on visited' queue' ↦ search_cycle fuel s src visited' queue'
    ]

-- Each relation queues its target once at most.
abbrev pub search_fuel : GraphState → ℕ
search_fuel s = suc (length s.relations)

-- `ValidateCausalAcyclic`
unfoldable pub validate_causal_acyclic : Envelope → GraphState → Check
validate_causal_acyclic env s =
    if not (same_type env.rewrite_type link)
    then ok tt
    else if not (env.rewrite_category == "WF21")
    then ok tt
    else if env.src_urn == env.tgt_urn
    then err (self_cause env.src_urn env.tgt_urn)
    else elim (search_cycle (search_fuel s) s env.src_urn (env.tgt_urn ∷ []) (env.tgt_urn ∷ [])) [
      | none ↦ err unfinished_search
      | some true ↦ err (causal_cycle env.src_urn env.tgt_urn)
      | some false ↦ ok tt
    ]
