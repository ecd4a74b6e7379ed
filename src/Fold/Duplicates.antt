-- ===== src/Fold/Duplicates.antt =====
-- Entries that a second writer appended again.
use moos_kernel.Prelude.{
  ℕ, ◌≡◌, refl, sym, ◌∙◌, subst, inl, inr, true, none, some, List, [], ◌∷◌, ◌++◌, length, err,
  reject_if, ◌>>◌, ◌==◌, arith, Bool-cases, Option-cases, get, get-put_self, is_some,
}
use moos_kernel.Graph.{add, Envelope, EvalResult, PersistedRewrite, GraphState}
use moos_kernel.Graph.Consistent.{IsConsistent}
use moos_kernel.Fold.{
  FoldError, node_exists, missing_actor, new_node, add_node, validate_fields,
  validate_envelope_structure, apply_add, dispatch, evaluate_in_place,
}
use moos_kernel.Fold.Effect.{IsNamed, Effect, adds, links, extends, mutates, unlinks, evaluate_iff}
use moos_kernel.Fold.Identity.{Later}
use moos_kernel.Fold.Replay.{is_idempotent_skip, replay_applied_at, Replayed, replay_loop, replay}
use moos_kernel.Fold.Log.{
  continue, once, once_cases, replay-append, replay-snoc, replayed-IsConsistent,
  replay-IsConsistent,
}

-- A structurally valid ADD of a node that is there.
pub record IsRepeatedAdd (env : Envelope) (s : GraphState) : Type 0 where
  pub kind : env.rewrite_type ≡ add
  pub actor : IsNamed env.actor
  pub node : IsNamed env.node_urn
  pub type_id : IsNamed env.type_id
  pub taken : is_some (get env.node_urn s.nodes) ≡ true

module _ (s : GraphState) (env : Envelope) (t : ℕ) where
  repeated-fails : IsRepeatedAdd env s → evaluate_in_place s env t ≡ err (node_exists env.node_urn)
  unfolding evaluate_in_place validate_envelope_structure validate_fields dispatch apply_add
  repeated-fails h = rw h.kind (ground arith)

  failed-IsRepeatedAdd :
      (e : FoldError)
      → env.rewrite_type ≡ add
      → evaluate_in_place s env t ≡ err e
      → is_idempotent_skip add e ≡ true
      → IsRepeatedAdd env s
  unfolding evaluate_in_place validate_envelope_structure validate_fields dispatch apply_add
      is_idempotent_skip add_node new_node
  failed-IsRepeatedAdd e kind failed skip =
      let h : evaluate_in_place s env t ≡ err e = failed in fields (rw kind at h)
    where
      fields :
          (reject_if (env.actor == "") missing_actor
              >> validate_fields add env
              >> apply_add s env t)
            ≡ err e
          → IsRepeatedAdd env s
      fields h = record {
        kind = kind;
        actor = ground arith;
        node = ground arith;
        type_id = ground arith;
        taken = ground arith;
      }

Effect-IsRepeatedAdd :
    (a : GraphState) (env : Envelope) (t : ℕ) (b : GraphState) (r : EvalResult)
    → env.rewrite_type ≡ add
    → Effect a env t b r
    → IsRepeatedAdd env b
unfolding add_node
Effect-IsRepeatedAdd a env t b r kind (adds _ actor node type_id fresh e _) = record {
  kind = kind;
  actor = actor;
  node = node;
  type_id = type_id;
  taken = rw (e, get-put_self env.node_urn (new_node env t) a.nodes) refl;
}
Effect-IsRepeatedAdd a env t b r kind (links _ _ other _ _ _ _ _ _ _ _ _ _) = absurd (ground arith)
Effect-IsRepeatedAdd a env t b r kind (extends _ _ other _ _ _ _ _ _ _ _) = absurd (ground arith)
Effect-IsRepeatedAdd a env t b r kind (mutates _ _ other _ _ _ _ _ _ _ _ _) = absurd (ground arith)
Effect-IsRepeatedAdd a env t b r kind (unlinks _ other _ _ _ _ _) = absurd (ground arith)

once-IsRepeatedAdd :
    (i : ℕ) (a b : GraphState) (pr : PersistedRewrite)
    → IsConsistent a
    → pr.envelope.rewrite_type ≡ add
    → once i a pr ≡ (b, none)
    → IsRepeatedAdd pr.envelope b
once-IsRepeatedAdd i a b pr c kind h = elim (once_cases i a pr c) [
  | inl (s', r, e, effect) ↦ Effect-IsRepeatedAdd a pr.envelope (replay_applied_at pr) b r kind (
      subst (λ (x : GraphState). Effect a pr.envelope (replay_applied_at pr) x r) {x = s'}
        (ground arith) effect)
  | inr (e, failed, stop) ↦ elim (Bool-cases (is_idempotent_skip pr.envelope.rewrite_type e)) [
    | inl skip ↦
        subst (IsRepeatedAdd pr.envelope) {x = a} (ground arith) (
          failed-IsRepeatedAdd a pr.envelope (replay_applied_at pr) e kind failed (rw kind at skip))
    | inr fatal ↦ absurd (ground arith)
  ]
]

repeated-skipped :
    (i : ℕ) (s : GraphState) (pr : PersistedRewrite)
    → IsConsistent s
    → IsRepeatedAdd pr.envelope s
    → once i s pr ≡ (s, none)
unfolding is_idempotent_skip
repeated-skipped i s pr c h =
    let fails = repeated-fails s pr.envelope (replay_applied_at pr) h in
    elim (once_cases i s pr c) [
      | inl (s', r, e, effect) ↦
          absurd (ground (arith, (evaluate_iff s pr.envelope (replay_applied_at pr) s' r).1 effect))
      | inr (e, failed, stop) ↦ ground arith
    ]

continues :
    (q : Replayed) (k : GraphState → Replayed) (s : GraphState)
    → continue q k ≡ (s, none)
    → (m : GraphState) × (q ≡ (m, none)) × (k m ≡ (s, none))
continues (m, none) k s h = (m, refl, h)
continues (m, some e) k s h = absurd (ground arith)

IsRepeatedAdd-Later :
    (env : Envelope) (m s : GraphState) → IsRepeatedAdd env m → Later m s → IsRepeatedAdd env s
IsRepeatedAdd-Later env m s h later = elim (Option-cases (get env.node_urn m.nodes)) [
  | inl missing ↦ absurd (ground (arith, h.taken))
  | inr (n, found) ↦
      let (n', found', same) = later env.node_urn n found in
      record {
        kind = h.kind;
        actor = h.actor;
        node = h.node;
        type_id = h.type_id;
        taken = rw found';
      }
]

-- An ADD that stands in the log once more, however much later, changes nothing: the replay skips it
-- and ends in the same state.
pub replay_duplicate_add :
    (before after : List PersistedRewrite) (pr : PersistedRewrite) (s : GraphState)
    → pr.envelope.rewrite_type ≡ add
    → replay ((before ++ pr ∷ []) ++ after) ≡ (s, none)
    → replay (((before ++ pr ∷ []) ++ after) ++ pr ∷ []) ≡ (s, none)
replay_duplicate_add before after pr s kind h =
    let log = before ++ pr ∷ [] in
    let (m, first, rest) =
      continues (replay log) (λ t. replay_loop (length log) t after) s
        (sym (replay-append log after) ∙ h) in
    let (a, start, added) =
      continues (replay before) (λ t. replay_loop (length before) t (pr ∷ [])) m
        (sym (replay-append before (pr ∷ [])) ∙ first) in
    let ca : IsConsistent a =
      subst (λ (q : Replayed). IsConsistent q.0) start (replayed-IsConsistent before) in
    let (whole, later) = replay-IsConsistent log after in
    let cs : IsConsistent s = subst (λ (q : Replayed). IsConsistent q.0) h whole in
    let later' : Later m s =
      subst (λ (q : Replayed). Later m q.0) h
        (subst (λ (q : Replayed). Later q.0 (replay (log ++ after)).0) first later) in
    replay-snoc (log ++ after) s pr h
    ∙ repeated-skipped (length (log ++ after)) s pr cs (
        IsRepeatedAdd-Later pr.envelope m s
          (once-IsRepeatedAdd (length before) a m pr ca kind added) later')
