-- ===== src/Operad/Session/Resolve.antt =====
-- internal/operad/session_context.go: what a resolved session context says of the state.
use moos_kernel.Prelude.{
  ◌≡◌, refl, sym, subst, inl, inr, ◌↔◌, true, false, ◌&&◌, ◌||◌, some, List, [], ◌∷◌, ◌++◌, ◌==◌,
  get, holds, contains, arith, eq_iff, eq_refl, Bool-cases, Option-cases,
}
use moos_kernel.Graph.{Urn, Relation, Envelope, GraphState}
use moos_kernel.Graph.State.{relations_from, relations_to}
use moos_kernel.Graph.Consistent.{IsConsistent, contains-relations_from, contains-relations_to}
use moos_kernel.Operad.Occupancy.{is_occupancy}
use moos_kernel.Operad.Occupancy.Admin.{IsSession, Occupies, resolve_session_occupant_cases}
use moos_kernel.Operad.Session.{
  session_has_any_occupant, any_seat, session_has_occupant_target, seat_source, seat_sources,
  sessions_occupying_actor, by_candidates, resolve_session_for_envelope, resolved,
}

-- The session `u` seats the actor.
abbrev pub Sits : GraphState → Urn → Urn → Type 0
Sits s u actor =
    IsSession s u
    × ((k : Urn) × (rel : Relation) × (get k s.relations ≡ some rel)
        × (rel.src_urn ≡ u)
        × (is_occupancy rel ≡ true)
        × (rel.tgt_urn ≡ actor))

-- The session that the envelope runs under: the actor itself where it is an occupied session, else
-- the one that the envelope names, else the only one in which the actor sits.
pub data RunsUnder (s : GraphState) (env : Envelope) (u : Urn) : Type 0 where
  own :
      u ≡ env.actor → IsSession s env.actor → (p : Urn) × Occupies s env.actor p → RunsUnder s env u
  named : u ≡ env.session_urn → Sits s env.session_urn env.actor → RunsUnder s env u
  only :
      env.session_urn ≡ ""
      → Sits s u env.actor
      → ((v : Urn) → Sits s v env.actor → v ≡ u)
      → RunsUnder s env u

module _ (s : GraphState) where
  any_seat-some :
      (actor : Urn) (us : List Urn)
      → any_seat s actor us ≡ true
      → (k : Urn) × (rel : Relation) × (contains k us ≡ true)
        × (get k s.relations ≡ some rel)
        × (is_occupancy rel ≡ true)
        × (rel.tgt_urn ≡ actor)
  unfolding any_seat contains
  any_seat-some actor [] h = absurd (ground arith)
  any_seat-some actor (u ∷ us) h = elim (Option-cases (get u s.relations)) [
    | inl gone ↦
        let (k, rel, m, f, o, t) = any_seat-some actor us (ground arith) in
        (k, rel, ground arith, f, o, t)
    | inr (r, at) ↦ elim (Bool-cases (is_occupancy r && r.tgt_urn == actor)) [
      | inl g ↦ (
        u,
        r,
        ground (arith, eq_refl u),
        at,
        ground arith,
        ground (arith, eq_iff r.tgt_urn actor),
      )
      | inr g ↦
          let (k, rel, m, f, o, t) = any_seat-some actor us (ground arith) in
          (k, rel, ground arith, f, o, t)
    ]
  ]

  contains-append :
      (x : Urn) (us vs : List Urn) → contains x (us ++ vs) ≡ (contains x us || contains x vs)
  unfolding contains
  contains-append x [] vs = refl
  contains-append x (u ∷ us) vs = ground (arith, contains-append x us vs)

  -- The candidates are the sessions at which an occupancy of the list starts.
  sources_sound :
      (us : List Urn) (v : Urn)
      → contains v (seat_sources s us) ≡ true
      → IsSession s v
        × ((k : Urn) × (rel : Relation) × (contains k us ≡ true)
            × (get k s.relations ≡ some rel)
            × (rel.src_urn ≡ v)
            × (is_occupancy rel ≡ true))
  unfolding seat_sources seat_source contains
  sources_sound [] v h = absurd (ground arith)
  sources_sound (u ∷ us) v h = elim (Option-cases (get u s.relations)) [
    | inl gone ↦
        let (kind, (k, rel, m, f, e, o)) = sources_sound us v (ground arith) in
        (kind, (k, rel, ground arith, f, e, o))
    | inr (r, at) ↦
        elim (Bool-cases
          (is_occupancy r && holds (λ n. n.type_id == "session") (get r.src_urn s.nodes))) [
            | inr g ↦
                let (kind, (k, rel, m, f, e, o)) = sources_sound us v (ground arith) in
                (kind, (k, rel, ground arith, f, e, o))
            | inl g ↦ elim (Bool-cases (r.src_urn == v)) [
              | inl same ↦
                  let e : r.src_urn ≡ v = (eq_iff r.src_urn v).0 same in
                  let kind : IsSession s r.src_urn = ground arith in
                  (
                    subst (λ (w : Urn). IsSession s w) e kind,
                    (u, r, ground (arith, eq_refl u), at, e, ground arith),
                  )
              | inr other ↦
                  let (kind, (k, rel, m, f, e, o)) = sources_sound us v (ground arith) in
                  (kind, (k, rel, ground arith, f, e, o))
            ]
          ]
  ]

  sources_complete :
      (us : List Urn) (v k : Urn) (rel : Relation)
      → IsSession s v
      → contains k us ≡ true
      → get k s.relations ≡ some rel
      → rel.src_urn ≡ v
      → is_occupancy rel ≡ true
      → contains v (seat_sources s us) ≡ true
  unfolding seat_sources seat_source contains
  sources_complete [] v k rel kind m f e o = absurd (ground arith)
  sources_complete (u ∷ us) v k rel kind m f e o = rw contains-append (elim (Bool-cases (u == k)) [
    | inl same ↦
        let at : get u s.relations ≡ some rel =
          subst (λ (w : Urn). get w s.relations ≡ some rel) (sym ((eq_iff u k).0 same)) f in
        let kind' : IsSession s rel.src_urn = subst (λ (w : Urn). IsSession s w) (sym e) kind in
        ground (arith, eq_iff rel.src_urn v)
    | inr other ↦ ground (arith, sources_complete us v k rel kind (ground arith) f e o)
  ])

module _ (s : GraphState) (c : IsConsistent s) where
  Sits-named :
      (session actor : Urn)
      → IsSession s session
      → session_has_occupant_target s session actor ≡ true
      → Sits s session actor
  unfolding session_has_occupant_target
  Sits-named session actor kind h =
      let (k, rel, m, f, o, t) = any_seat-some s actor (relations_from s session) h in
      (
        kind,
        (
          k,
          rel,
          f,
          ground (arith, contains-relations_from s c session k, eq_iff rel.src_urn session),
          o,
          t,
        ),
      )

  contains-sessions :
      (actor v : Urn) → (contains v (sessions_occupying_actor s actor) ≡ true) ↔ Sits s v actor
  unfolding sessions_occupying_actor
  contains-sessions actor v = (
    (λ h.
        let (kind, (k, rel, m, f, e, o)) = sources_sound s (relations_to s actor) v h in
        (
          kind,
          (
            k,
            rel,
            f,
            e,
            o,
            ground (arith, contains-relations_to s c actor k, eq_iff rel.tgt_urn actor),
          ),
        )),
    (λ (kind, (k, rel, f, e, o, t)).
        sources_complete s (relations_to s actor) v k rel kind
          (ground (arith, contains-relations_to s c actor k, eq_iff rel.tgt_urn actor)) f e o),
  )

  only_candidate :
      (env : Envelope) (u : Urn) (us : List Urn)
      → env.session_urn ≡ ""
      → ((v : Urn) → (contains v us ≡ true) ↔ Sits s v env.actor)
      → resolved (by_candidates us) ≡ some u
      → RunsUnder s env u
  unfolding by_candidates resolved contains
  only_candidate env u [] blank sits h = absurd (ground arith)
  only_candidate env u (v ∷ w ∷ us) blank sits h = absurd (ground arith)
  only_candidate env u (v ∷ []) blank sits h =
      let e : v ≡ u = ground arith in
      only blank ((sits u).0 (ground (arith, eq_iff v u)))
        (λ w at. let m = (sits w).1 at in ground (arith, eq_iff v w))

  -- In a consistent state, for an envelope with a named actor, a session that the resolver names is one
  -- that the envelope runs under.
  pub resolved-RunsUnder :
      (env : Envelope) (u : Urn)
      → (env.actor == "") ≡ false
      → resolved (resolve_session_for_envelope s env) ≡ some u
      → RunsUnder s env u
  unfolding resolve_session_for_envelope resolved
  resolved-RunsUnder env u actor h =
      elim (Bool-cases (holds (λ n. n.type_id == "session") (get env.actor s.nodes))) [
        | inl own_session ↦ elim (Bool-cases (session_has_any_occupant s env.actor)) [
          | inr vacant ↦ absurd (ground arith)
          | inl seated ↦ elim (resolve_session_occupant_cases s c env.actor own_session actor) [
            | inl (p, e, occ) ↦ own (ground arith) own_session (p, occ)
            | inr (e, nobody) ↦ absurd (unfold session_has_any_occupant in ground arith)
          ]
        ]
        | inr other ↦ elim (Bool-cases (env.session_urn == "")) [
          | inl blank ↦
              only_candidate env u (sessions_occupying_actor s env.actor)
                ((eq_iff env.session_urn "").0 blank) (contains-sessions env.actor)
                (rw (other, blank) at h)
          | inr given ↦
              elim (Bool-cases
                (holds (λ n. n.type_id == "session") (get env.session_urn s.nodes))) [
                  | inr bad ↦ absurd (ground arith)
                  | inl kind ↦
                      elim (Bool-cases (session_has_occupant_target s env.session_urn env.actor)) [
                        | inr bad ↦ absurd (ground arith)
                        | inl sits ↦
                            named (ground arith) (Sits-named env.session_urn env.actor kind sits)
                      ]
                ]
        ]
      ]
