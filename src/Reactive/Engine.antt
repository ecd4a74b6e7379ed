-- ===== src/Reactive/Engine.antt =====
-- internal/reactive/engine.go: the firings of the watchers, guards and reactors, and of the t_hooks.
use text.Mathlib.Text.{starts_with}
use Prim.Native.String
use Prim.Native.String.{len}
use moos_kernel.Prelude.{
  ℕ, zero, suc, ◌-◌, String, Bool, true, false, not, ◌&&◌, ◌||◌, Option, none, some, List, [], ◌∷◌,
  ◌++◌, ◌==◌, if◌then◌else◌, Map, get, map,
}
use moos_kernel.Graph.{
  Urn, TypeId, RewriteType, add, link, mutate, unlink, other, Value, Node, Relation, Envelope,
  PersistedRewrite, GraphState,
}
use moos_kernel.Reactive.{prop_str, evaluate_predicate}
pub mod Scans
pub mod Fired
pub mod Decides

-- `FiringKind`: the two kinds, and any other string.
pub data FiringKind : Type 0 where
  reactor t_hook : FiringKind
  unknown : String → FiringKind

pub record Firing : Type 0 where
  pub proposal : Envelope
  pub source_hook : Urn
  pub kind : FiringKind

-- `thookEventShape`
pub record EventShape : Type 0 where
  pub rewrite_type : String
  pub type_id : String
  pub urn_prefix : String
  pub port : String
  pub field : String

-- Go's `encoding/json`; `none` is an error.
pub record Json : Type 0 where
  pub marshal : Value → Option String
  pub unmarshal_envelope : String → Option Envelope
  pub unmarshal_shape : String → Option EventShape

unfoldable pub rewrite_name : RewriteType → String
rewrite_name add = "ADD"
rewrite_name link = "LINK"
rewrite_name mutate = "MUTATE"
rewrite_name unlink = "UNLINK"
rewrite_name (other s) = s

-- `strings.ReplaceAll` for an `old` that is ASCII and not empty; `skip` characters of an occurrence
-- are left.
unfoldable pub replace_from : String → String → ℕ → String → String
replace_from old new skip String.[] = ""
replace_from old new (suc skip) (String.◌∷◌ c s) = replace_from old new skip s
replace_from old new zero (String.◌∷◌ c s) =
    let replaced = String.◌++◌ new (replace_from old new (len old - 1) s) in
    let kept = String.◌∷◌ c (replace_from old new zero s) in
    if starts_with (String.◌∷◌ c s) old then replaced else kept

unfoldable pub replace_all : String → String → String → String
unfolding replace_from
replace_all s old new = replace_from old new zero s

-- `affected`
unfoldable pub type_of : GraphState → Urn → TypeId
type_of state urn = elim (get urn state.nodes) [ none ↦ "" | some n ↦ n.type_id ]

unfoldable pub affected : GraphState → Envelope → Urn × TypeId
unfolding type_of
affected state env = elim env.rewrite_type [
  | add ↦ (env.node_urn, env.type_id)
  | link ↦ (env.src_urn, type_of state env.src_urn)
  | mutate ↦ (env.target_urn, type_of state env.target_urn)
  | unlink ↦ elim (get env.relation_urn state.relations) [
    | none ↦ ("", "")
    | some rel ↦ elim (get rel.src_urn state.nodes) [
      | none ↦ ("", "")
      | some n ↦ (rel.src_urn, n.type_id)
    ]
  ]
  | other s ↦ ("", "")
]

-- A filter that is empty or a star lets every text through.
abbrev pub passes : String → String → Bool
passes filter text = filter == "" || filter == "*" || filter == text

abbrev pub passes_prefix : String → String → Bool
passes_prefix prefix text = prefix == "" || starts_with text prefix

abbrev pub passes_port : String → Envelope → Bool
passes_port port env = port == "" || env.src_port == port || env.tgt_port == port

-- `watcherMatches`
unfoldable pub watcher_matches : Node → Envelope → Urn → TypeId → Bool
watcher_matches watcher env urn type_id =
    prop_str watcher "status" == "active"
    && passes (prop_str watcher "match_rewrite_type") (rewrite_name env.rewrite_type)
    && passes (prop_str watcher "match_type_id") type_id
    && passes_prefix (prop_str watcher "match_urn_prefix") urn
    && passes_port (prop_str watcher "match_port") env

module _ (print_value : Value → String) (state : GraphState) where
  -- The loop of `guardsPass`.
  unfoldable pub guards_among : Urn → Map Relation → Bool
  guards_among watcher [] = true
  guards_among watcher ((u, rel) ∷ rels) =
      let rest = guards_among watcher rels in
      if not (rel.tgt_urn == watcher) || not (rel.tgt_port == "guarded-by")
      then rest
      else elim (get rel.src_urn state.nodes) [
        | none ↦ false
        | some guard ↦ if evaluate_predicate print_value state guard then rest else false
      ]

  unfoldable pub guards_pass : Urn → Bool
  unfolding guards_among
  guards_pass watcher = guards_among watcher state.relations

  -- `thookGuardPasses`
  unfoldable pub thook_guard_passes : Node → Bool
  thook_guard_passes hook =
      let guard_ref = prop_str hook "guard_ref" in
      if guard_ref == "" then true else elim (get guard_ref state.nodes) [
        | none ↦ false
        | some guard ↦ evaluate_predicate print_value state guard
      ]

module _ (json : Json) where
  -- `buildFromProp`; `none` is any of its errors.
  unfoldable pub build_from_prop : Node → String → Urn → TypeId → Urn → Option Envelope
  unfolding replace_all
  build_from_prop node prop urn type_id actor = elim (get prop node.properties) [
    | none ↦ none
    | some p ↦ elim (json.marshal p.value) [
      | none ↦ none
      | some raw ↦ json.unmarshal_envelope (
          replace_all (replace_all (replace_all raw "$matched_urn" urn) "$matched_type_id" type_id)
            "$actor" actor)
    ]
  ]

  -- The tests of `thookEventShapeMatches` on the decoded shape.
  unfoldable pub shape_matches : EventShape → Node → Envelope → TypeId → Bool
  shape_matches shape hook env type_id =
      passes shape.rewrite_type (rewrite_name env.rewrite_type)
      && passes shape.type_id type_id
      && passes_prefix shape.urn_prefix (prop_str hook "owner_urn")
      && passes_port shape.port env
      && passes shape.field env.field

  -- `thookEventShapeMatches`
  unfoldable pub thook_event_shape_matches : Node → Envelope → TypeId → Bool
  unfolding shape_matches
  thook_event_shape_matches hook env type_id = elim (get "event_shape" hook.properties) [
    | none ↦ true
    | some p ↦ elim (json.marshal p.value) [
      | none ↦ false
      | some raw ↦ elim (json.unmarshal_shape raw) [
        | none ↦ false
        | some shape ↦ shape_matches shape hook env type_id
      ]
    ]
  ]

  -- The proposal of the relation `rel`, for the watcher `watcher`.
  unfoldable pub reaction : GraphState → Urn → Urn → TypeId → Urn → Relation → Option Envelope
  unfolding build_from_prop
  reaction state watcher urn type_id actor rel =
      if not (rel.src_urn == watcher) || not (rel.src_port == "triggers")
      then none
      else elim (get rel.tgt_urn state.nodes) [
        | none ↦ none
        | some reactor_node ↦
            if not (prop_str reactor_node "status" == "active")
              || not (prop_str reactor_node "action_type" == "rewrite")
            then none
            else build_from_prop reactor_node "template" urn type_id actor
      ]

  -- The loop of `react`, with the proposals wrapped as firings.
  unfoldable pub react : GraphState → Urn → Urn → TypeId → Urn → Map Relation → List Firing
  unfolding reaction
  react state watcher urn type_id actor [] = []
  react state watcher urn type_id actor ((u, rel) ∷ rels) =
      let rest = react state watcher urn type_id actor rels in
      elim (reaction state watcher urn type_id actor rel) [
        | none ↦ rest
        | some env ↦ record { proposal = env; source_hook = ""; kind = reactor } ∷ rest
      ]

module _ (print_value : Value → String) (json : Json) where
  -- The firings of one node in the first pass.
  unfoldable pub watch : GraphState → Envelope → Urn → TypeId → Node → List Firing
  unfolding react
  watch state env urn type_id node =
      if not (node.type_id == "watcher")
        || not (watcher_matches node env urn type_id)
        || not (guards_pass print_value state node.urn)
      then []
      else react json state node.urn urn type_id env.actor state.relations

  -- The firing of one node in the second pass.
  unfoldable pub hook_firing : GraphState → Envelope → Urn → TypeId → Node → Option Firing
  hook_firing state env urn type_id hook =
      if not (hook.type_id == "t_hook")
        || not (prop_str hook "status" == "active")
        || not (prop_str hook "owner_urn" == urn)
        || not (thook_event_shape_matches json hook env type_id)
        || not (thook_guard_passes print_value state hook)
      then none
      else elim (build_from_prop json hook "react_template" urn type_id env.actor) [
        | none ↦ none
        | some proposal ↦
            some (record { proposal = proposal; source_hook = hook.urn; kind = t_hook })
      ]

  unfoldable pub first_pass : GraphState → Envelope → Urn → TypeId → Map Node → List Firing
  unfolding watch
  first_pass state env urn type_id [] = []
  first_pass state env urn type_id ((u, node) ∷ nodes) =
      watch state env urn type_id node ++ first_pass state env urn type_id nodes

  unfoldable pub second_pass : GraphState → Envelope → Urn → TypeId → Map Node → List Firing
  unfolding hook_firing
  second_pass state env urn type_id [] = []
  second_pass state env urn type_id ((u, node) ∷ nodes) =
      let rest = second_pass state env urn type_id nodes in
      elim (hook_firing state env urn type_id node) [ none ↦ rest | some f ↦ f ∷ rest ]

  -- `EvaluateDetailed`
  unfoldable pub evaluate_detailed : GraphState → PersistedRewrite → List Firing
  unfolding first_pass second_pass affected
  evaluate_detailed state rewrite =
      let env = rewrite.envelope in
      let (urn, type_id) = affected state env in
      let hooks = if urn == "" then [] else second_pass state env urn type_id state.nodes in
      first_pass state env urn type_id state.nodes ++ hooks

  -- `Evaluate`
  unfoldable pub evaluate : GraphState → PersistedRewrite → List Envelope
  unfolding evaluate_detailed
  evaluate state rewrite = map (λ (f : Firing). f.proposal) (evaluate_detailed state rewrite)
