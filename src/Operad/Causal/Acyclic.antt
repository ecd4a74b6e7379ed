-- ===== src/Operad/Causal/Acyclic.antt =====
-- What the check on WF21 links decides, and the acyclic graph of causes that it keeps.
use moos_kernel.Prelude.{
  ◌≡◌, refl, sym, ◌∙◌, ap, subst, inl, inr, ◌⊎◌, true, Option, none, some, ◌==◌, if◌then◌else◌, ok,
  err, is_some, arith, eq_iff, eq_refl, eq_comm, Bool-cases, Option-cases, get-put_cases,
  get-delete-some,
}
use moos_kernel.Graph.{Urn, Time, link, Envelope, EvalResult, Relation, Index, GraphState}
use moos_kernel.Graph.Index.{
  index_add_endpoint, index_add_relation_endpoints, index_remove_endpoint,
  index_remove_relation_endpoints,
}
use moos_kernel.Graph.Consistent.{IsConsistent}
use moos_kernel.Fold.{new_relation, add_node, add_relation, write_property, remove_relation}
use moos_kernel.Fold.Effect.{Effect, adds, links, extends, mutates, unlinks}
use moos_kernel.Operad.{OperadError, self_cause, causal_cycle, same_type}
use moos_kernel.Operad.Causal.{validate_causal_acyclic}
use moos_kernel.Operad.Causal.Search.{
  Causes, Reaches, here, along, Reaches-trans, search_cycle-start,
}

-- The errors that name a cycle.
abbrev pub cycle_error : Envelope → OperadError
cycle_error env =
    if env.src_urn == env.tgt_urn
    then self_cause env.src_urn env.tgt_urn
    else causal_cycle env.src_urn env.tgt_urn

-- A WF21 LINK into a consistent state that keeps an index by source is accepted where its target
-- does not reach its source along causes, and refused with the error of a cycle where it does: the
-- breadth-first search always ends, within one round more than there are relations.
pub validate_causal_acyclic_decides :
    (env : Envelope) (s : GraphState)
    → IsConsistent s
    → is_some s.relations_by_src ≡ true
    → env.rewrite_type ≡ link
    → env.rewrite_category ≡ "WF21"
    → ((validate_causal_acyclic env s ≡ ok tt) × ¬ Reaches s env.tgt_urn env.src_urn)
      ⊎ (validate_causal_acyclic env s ≡ err (cycle_error env)) × Reaches s env.tgt_urn env.src_urn
unfolding validate_causal_acyclic same_type
validate_causal_acyclic_decides env s c live kind wf =
    rw (kind, wf)
      (elim (Bool-cases (env.src_urn == env.tgt_urn)) [
        | inl e ↦ rw e (
            inr (
              refl,
              subst (λ (y : Urn). Reaches s env.tgt_urn y)
                  (sym ((eq_iff env.src_urn env.tgt_urn).0 e)) (here env.tgt_urn),
            ))
        | inr ne ↦ elim (Option-cases s.relations_by_src) [
          | inl gone ↦ absurd (ground arith)
          | inr (idx, at) ↦
              elim (search_cycle-start s idx c at env.src_urn env.tgt_urn
                (eq_comm env.tgt_urn env.src_urn ∙ ne)) [
                  | inl (found, path) ↦ rw (ne, found) (inr (refl, path))
                  | inr (found, apart) ↦
                      rw (ne, found)
                        (inl (
                          refl,
                          λ path. ground (arith, apart env.src_urn path, eq_refl env.src_urn),
                        ))
                ]
        ]
      ])

-- No node is among its own causes.
abbrev pub IsAcyclic : GraphState → Type 0
IsAcyclic s = (a b : Urn) → Causes s a b → ¬ Reaches s b a

module _ (s s' : GraphState) where
  Reaches-fewer :
      ((a b : Urn) → Causes s' a b → Causes s a b) → (x y : Urn) → Reaches s' x y → Reaches s x y
  Reaches-fewer fewer x _ (here _) = here x
  Reaches-fewer fewer x y (along _ b _ p e) = along x b y (Reaches-fewer fewer x b p) (fewer b y e)

  IsAcyclic-fewer : ((a b : Urn) → Causes s' a b → Causes s a b) → IsAcyclic s → IsAcyclic s'
  IsAcyclic-fewer fewer acyclic a b e p = acyclic a b (fewer a b e) (Reaches-fewer fewer b a p)

  -- One edge more, from `src` to `tgt`.
  module _ (src tgt : Urn)
      (one_more : (a b : Urn) → Causes s' a b → Causes s a b ⊎ ((a ≡ src) × (b ≡ tgt))) where
    Reaches-one_more :
        (x y : Urn) → Reaches s' x y → Reaches s x y ⊎ (Reaches s x src × Reaches s tgt y)
    Reaches-one_more x _ (here _) = inl (here x)
    Reaches-one_more x y (along _ b _ p e) = elim (one_more b y e) [
      | inl edge ↦ elim (Reaches-one_more x b p) [
        | inl old ↦ inl (along x b y old edge)
        | inr (to, from) ↦ inr (to, along tgt b y from edge)
      ]
      | inr (f, g) ↦
          let at : Reaches s tgt y = subst (Reaches s tgt) (sym g) (here tgt) in
          elim (Reaches-one_more x b p) [
            | inl old ↦ inr (subst (Reaches s x) f old, at)
            | inr (to, from) ↦ inr (to, at)
          ]
    ]

    IsAcyclic-one_more : IsAcyclic s → ¬ Reaches s tgt src → IsAcyclic s'
    IsAcyclic-one_more acyclic apart a b e p = elim (one_more a b e) [
      | inl edge ↦ elim (Reaches-one_more b a p) [
        | inl path ↦ acyclic a b edge path
        | inr (to, from) ↦ apart (Reaches-trans s tgt b src (along tgt a b from edge) to)
      ]
      | inr (f, g) ↦ elim (Reaches-one_more b a p) [
        | inl path ↦ apart (subst (Reaches s tgt) f (subst (λ (y : Urn). Reaches s y a) g path))
        | inr (to, from) ↦ apart (subst (λ (y : Urn). Reaches s y src) g to)
      ]
    ]

keeps_index :
    (o : Option Index) (rel end : Urn)
    → is_some o ≡ true
    → (is_some (index_add_endpoint o rel end) ≡ true)
      × (is_some (index_remove_endpoint o rel end) ≡ true)
unfolding index_add_endpoint index_remove_endpoint
keeps_index none rel end h = absurd (ground arith)
keeps_index (some idx) rel end h = ground arith

-- The relation that a LINK adds is the only new cause, and only in category WF21.
Causes-add_relation :
    (s : GraphState) (env : Envelope) (t : Time) (a b : Urn)
    → Causes (add_relation s env t) a b
    → Causes s a b ⊎ ((a ≡ env.src_urn) × (b ≡ env.tgt_urn) × (env.rewrite_category ≡ "WF21"))
unfolding add_relation new_relation
Causes-add_relation s env t a b (u, rel, found, cause, from, to) =
    elim (get-put_cases env.relation_urn u (new_relation env t) rel s.relations found) [
      | inl (e, same) ↦ inr (
        sym from ∙ ap (λ r. r.src_urn) (sym same),
        sym to ∙ ap (λ r. r.tgt_urn) (sym same),
        (eq_iff env.rewrite_category "WF21").0
            (ground (arith, ap (λ (r : Relation). r.rewrite_category) same)),
      )
      | inr old ↦ inl (u, rel, old, cause, from, to)
    ]

Causes-remove_relation :
    (s : GraphState) (env : Envelope) (old : Relation) (a b : Urn)
    → Causes (remove_relation s env old) a b
    → Causes s a b
unfolding remove_relation
Causes-remove_relation s env old a b (u, rel, found, cause, from, to) =
    (u, rel, get-delete-some env.relation_urn u rel s.relations found, cause, from, to)

-- Any applied rewrite that the check on WF21 links accepted keeps the graph of causes free of
-- cycles, and the index that the next check reads.
pub Effect-IsAcyclic :
    (s : GraphState) (env : Envelope) (t : Time) (s' : GraphState) (r : EvalResult)
    → IsConsistent s
    → is_some s.relations_by_src ≡ true
    → IsAcyclic s
    → validate_causal_acyclic env s ≡ ok tt
    → Effect s env t s' r
    → IsAcyclic s' × (is_some s'.relations_by_src ≡ true)
Effect-IsAcyclic s env t s' r c live acyclic pass (adds k a n ty f e x) =
    rw e (unfold add_node in (IsAcyclic-fewer s (add_node s env t) (λ a b p. p) acyclic, live))
Effect-IsAcyclic s env t s' r c live acyclic pass (extends n spec k a tg f at g p e x) = rw e (
    unfold write_property in
    (IsAcyclic-fewer s (write_property s env n spec) (λ a b p. p) acyclic, live))
Effect-IsAcyclic s env t s' r c live acyclic pass (mutates n prop k a tg f at g i v e x) = rw e (
    unfold write_property in
    (IsAcyclic-fewer s (write_property s env n prop) (λ a b p. p) acyclic, live))
Effect-IsAcyclic s env t s' r c live acyclic pass (unlinks old k a n f e x) = rw e (
  IsAcyclic-fewer s (remove_relation s env old) (Causes-remove_relation s env old) acyclic,
  unfold remove_relation index_remove_relation_endpoints in
      (keeps_index s.relations_by_src env.relation_urn old.src_urn live).1,
)
Effect-IsAcyclic s env t s' r c live acyclic pass (links src tgt k a n sn tn sf tf f wf e x) =
    rw e (
      elim (Bool-cases (env.rewrite_category == "WF21")) [
        | inr other ↦
            IsAcyclic-fewer s (add_relation s env t)
              (λ a b p. elim (Causes-add_relation s env t a b p) [
                | inl old ↦ old
                | inr (f, g, wf21) ↦ absurd (ground (arith, eq_iff env.rewrite_category "WF21"))
              ])
              acyclic
        | inl wf21 ↦
            elim (validate_causal_acyclic_decides env s c live k
              ((eq_iff env.rewrite_category "WF21").0 wf21)) [
                | inr (refused, path) ↦ absurd (ground arith)
                | inl (passed, apart) ↦
                    IsAcyclic-one_more s (add_relation s env t) env.src_urn env.tgt_urn
                      (λ a b p. elim (Causes-add_relation s env t a b p) [
                        | inl old ↦ inl old
                        | inr (f, g, wf) ↦ inr (f, g)
                      ])
                      acyclic apart
              ]
      ],
      unfold add_relation index_add_relation_endpoints in
          (keeps_index s.relations_by_src env.relation_urn env.src_urn live).0,
    )
