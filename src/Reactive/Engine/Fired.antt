-- ===== src/Reactive/Engine/Fired.antt =====
-- internal/reactive/engine.go: which firings a rewrite has, as a relation, and the engine against it.
use moos_kernel.Prelude.{
  String, ◌≡◌, ◌≢◌, refl, sym, subst, inl, inr, true, not, ◌||◌, some, [], ◌∷◌, ◌==◌, Map, get,
  eq_iff, arith, Bool-cases, Option-cases,
}
use moos_kernel.Graph.{Urn, TypeId, Value, Node, Relation, Envelope, GraphState}
use moos_kernel.Reactive.{prop_str, evaluate_predicate}
use moos_kernel.Reactive.Engine.{
  reactor, t_hook, Firing, Json, watcher_matches, guards_among, thook_guard_passes, build_from_prop,
  thook_event_shape_matches, reaction, react, hook_firing,
}
use moos_kernel.Reactive.Engine.Scans.{
  In, In-prepend_taken, In-prepend_kept, In-prepend_cases, Entry,
}

module _ (print_value : Value → String) (json : Json) (state : GraphState) (env : Envelope)
    (urn : Urn) (type_id : TypeId) where
  -- A guard of the watcher that is there and holds.
  abbrev pub Guards : Urn → Relation → Type 0
  Guards watcher rel =
      rel.tgt_urn ≡ watcher
      → rel.tgt_port ≡ "guarded-by"
      → (guard : Node) × (get rel.src_urn state.nodes ≡ some guard)
        × (evaluate_predicate print_value state guard ≡ true)

  abbrev pub Guarded : Urn → Type 0
  Guarded watcher =
      (r : Urn) (rel : Relation) → get r state.relations ≡ some rel → Guards watcher rel

  -- The node proposes `proposal` along the relation.
  pub record Triggers (watcher : Urn) (rel : Relation) (proposal : Envelope) : Type 0 where
    pub target : Node
    pub from : rel.src_urn ≡ watcher
    pub port : rel.src_port ≡ "triggers"
    pub there : get rel.tgt_urn state.nodes ≡ some target
    pub active : prop_str target "status" ≡ "active"
    pub action : prop_str target "action_type" ≡ "rewrite"
    pub built : build_from_prop json target "template" urn type_id env.actor ≡ some proposal

  guard_head :
      (watcher j : Urn) (x : Relation) (rels : Map Relation)
      → guards_among print_value state watcher ((j, x) ∷ rels) ≡ true
      → Guards watcher x
  unfolding guards_among
  guard_head watcher j x rels h tgt port = elim (Option-cases (get x.src_urn state.nodes)) [
    | inl e ↦ absurd (ground (arith, eq_iff x.tgt_urn watcher, eq_iff x.tgt_port "guarded-by"))
    | inr (guard, e) ↦
        (guard, e, ground (arith, eq_iff x.tgt_urn watcher, eq_iff x.tgt_port "guarded-by"))
  ]

  guard_tail :
      (watcher j : Urn) (x : Relation) (rels : Map Relation)
      → guards_among print_value state watcher ((j, x) ∷ rels) ≡ true
      → guards_among print_value state watcher rels ≡ true
  unfolding guards_among
  guard_tail watcher j x rels h = ground arith

  pub guards_among-Guards :
      (watcher : Urn) (rels : Map Relation)
      → guards_among print_value state watcher rels ≡ true
      → (r : Urn) (rel : Relation) → Entry r rel rels
      → Guards watcher rel
  guards_among-Guards watcher [] h r rel i = absurd i
  guards_among-Guards watcher ((j, x) ∷ rels) h r rel (inl (key, same)) =
      subst (Guards watcher) same (guard_head watcher j x rels h)
  guards_among-Guards watcher ((j, x) ∷ rels) h r rel (inr i) =
      guards_among-Guards watcher rels (guard_tail watcher j x rels h) r rel i

  guards_among-cons :
      (watcher j : Urn) (x : Relation) (rels : Map Relation)
      → Guards watcher x
      → guards_among print_value state watcher rels ≡ true
      → guards_among print_value state watcher ((j, x) ∷ rels) ≡ true
  unfolding guards_among
  guards_among-cons watcher j x rels g rest =
      elim (Bool-cases (not (x.tgt_urn == watcher) || not (x.tgt_port == "guarded-by"))) [
        | inl other ↦ rw other rest
        | inr guard ↦
            let (n, at, passes) =
              g (ground (arith, eq_iff x.tgt_urn watcher))
                (ground (arith, eq_iff x.tgt_port "guarded-by")) in
            ground arith
      ]

  pub Guards-guards_among :
      (watcher : Urn) (rels : Map Relation)
      → ((r : Urn) (rel : Relation) → Entry r rel rels → Guards watcher rel)
      → guards_among print_value state watcher rels ≡ true
  unfolding guards_among
  Guards-guards_among watcher [] g = refl
  Guards-guards_among watcher ((j, x) ∷ rels) g =
      guards_among-cons watcher j x rels (g j x (inl (refl, refl)))
        (Guards-guards_among watcher rels (λ r rel i. g r rel (inr i)))

  reaction-Triggers :
      (watcher : Urn) (rel : Relation) (proposal : Envelope)
      → reaction json state watcher urn type_id env.actor rel ≡ some proposal
      → Triggers watcher rel proposal
  unfolding reaction
  reaction-Triggers watcher rel proposal h = elim (Option-cases (get rel.tgt_urn state.nodes)) [
    | inl e ↦ absurd (ground arith)
    | inr (target, e) ↦ record {
      target = target;
      from = ground (arith, eq_iff rel.src_urn watcher);
      port = ground (arith, eq_iff rel.src_port "triggers");
      there = e;
      active = ground (arith, eq_iff (prop_str target "status") "active");
      action = ground (arith, eq_iff (prop_str target "action_type") "rewrite");
      built = ground arith;
    }
  ]

  Triggers-reaction :
      (watcher : Urn) (rel : Relation) (proposal : Envelope)
      → Triggers watcher rel proposal
      → reaction json state watcher urn type_id env.actor rel ≡ some proposal
  unfolding reaction
  Triggers-reaction watcher rel proposal t = ground (
    arith,
    eq_iff rel.src_urn watcher,
    eq_iff rel.src_port "triggers",
    eq_iff (prop_str t.target "status") "active",
    eq_iff (prop_str t.target "action_type") "rewrite",
    t.from,
    t.port,
    t.there,
    t.active,
    t.action,
    t.built,
  )

  abbrev pub reacted : Envelope → Firing
  reacted proposal = record { proposal = proposal; source_hook = ""; kind = reactor }

  -- The firings of the loop over the relations are those of its relations.
  pub react-found :
      (watcher : Urn) (rels : Map Relation) (f : Firing)
      → In f (react json state watcher urn type_id env.actor rels)
      → (r : Urn) × (rel : Relation) × (proposal : Envelope) × Entry r rel rels
        × Triggers watcher rel proposal
        × (f ≡ reacted proposal)
  unfolding react
  react-found watcher [] f i = absurd i
  react-found watcher ((j, x) ∷ rels) f i =
      elim (In-prepend_cases reacted (react json state watcher urn type_id env.actor rels)
        (reaction json state watcher urn type_id env.actor x) f i) [
          | inl (proposal, e, same) ↦
              (j, x, proposal, inl (refl, refl), reaction-Triggers watcher x proposal e, same)
          | inr k ↦
              let (r, rel, proposal, at, t, same) = react-found watcher rels f k in
              (r, rel, proposal, inr at, t, same)
        ]

  pub react-finds :
      (watcher r : Urn) (rel : Relation) (proposal : Envelope) (rels : Map Relation)
      → Entry r rel rels
      → Triggers watcher rel proposal
      → In (reacted proposal) (react json state watcher urn type_id env.actor rels)
  unfolding react
  react-finds watcher r rel proposal [] i t = absurd i
  react-finds watcher r rel proposal ((j, x) ∷ rels) (inl (key, same)) t =
      In-prepend_taken reacted (react json state watcher urn type_id env.actor rels)
        (reaction json state watcher urn type_id env.actor x) proposal
        (Triggers-reaction watcher x proposal
          (subst (λ (y : Relation). Triggers watcher y proposal) (sym same) t))
  react-finds watcher r rel proposal ((j, x) ∷ rels) (inr i) t =
      In-prepend_kept reacted (react json state watcher urn type_id env.actor rels)
        (reaction json state watcher urn type_id env.actor x) (reacted proposal)
        (react-finds watcher r rel proposal rels i t)

  -- What makes a hook fire `proposal`.
  pub record Hooked (hook : Node) (proposal : Envelope) : Type 0 where
    pub is_hook : hook.type_id ≡ "t_hook"
    pub active : prop_str hook "status" ≡ "active"
    pub owned : prop_str hook "owner_urn" ≡ urn
    pub shaped : thook_event_shape_matches json hook env type_id ≡ true
    pub guarded : thook_guard_passes print_value state hook ≡ true
    pub built : build_from_prop json hook "react_template" urn type_id env.actor ≡ some proposal

  abbrev pub hooked : Node → Envelope → Firing
  hooked hook proposal = record { proposal = proposal; source_hook = hook.urn; kind = t_hook }

  pub data Fired (f : Firing) : Type 0 where
    reacts :
        (w r : Urn) (watcher : Node) (rel : Relation) (proposal : Envelope)
        → get w state.nodes ≡ some watcher
        → watcher.type_id ≡ "watcher"
        → watcher_matches watcher env urn type_id ≡ true
        → Guarded watcher.urn
        → get r state.relations ≡ some rel
        → Triggers watcher.urn rel proposal
        → f ≡ reacted proposal
        → Fired f
    fires :
        (u : Urn) (hook : Node) (proposal : Envelope)
        → urn ≢ ""
        → get u state.nodes ≡ some hook
        → Hooked hook proposal
        → f ≡ hooked hook proposal
        → Fired f

  pub hook_firing-Hooked :
      (hook : Node) (f : Firing)
      → hook_firing print_value json state env urn type_id hook ≡ some f
      → (proposal : Envelope) × Hooked hook proposal × (f ≡ hooked hook proposal)
  unfolding hook_firing
  hook_firing-Hooked hook f h =
      elim (Option-cases (build_from_prop json hook "react_template" urn type_id env.actor)) [
        | inl e ↦ absurd (ground arith)
        | inr (proposal, e) ↦ (
          proposal,
          record {
            is_hook = ground (arith, eq_iff hook.type_id "t_hook");
            active = ground (arith, eq_iff (prop_str hook "status") "active");
            owned = ground (arith, eq_iff (prop_str hook "owner_urn") urn);
            shaped = ground arith;
            guarded = ground arith;
            built = e;
          },
          ground arith,
        )
      ]

  pub Hooked-hook_firing :
      (hook : Node) (proposal : Envelope)
      → Hooked hook proposal
      → hook_firing print_value json state env urn type_id hook ≡ some (hooked hook proposal)
  unfolding hook_firing
  Hooked-hook_firing hook proposal h = ground (
    arith,
    eq_iff hook.type_id "t_hook",
    eq_iff (prop_str hook "status") "active",
    eq_iff (prop_str hook "owner_urn") urn,
    h.is_hook,
    h.active,
    h.owned,
    h.shaped,
    h.guarded,
    h.built,
  )
