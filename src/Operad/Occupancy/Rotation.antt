-- ===== src/Operad/Occupancy/Rotation.antt =====
-- internal/operad/occupancy.go, `RotateSessionOccupant`: what its program does to the state.
use moos_kernel.Prelude.{
  ℕ, ◌≡◌, refl, sym, ◌∙◌, subst, inl, inr, true, false, none, some, List, [], ◌∷◌, length, ok, get,
  is_some, arith, eq_iff, eq_refl, Bool-cases, Option-cases, get-put, get-put_cases, get-delete,
  get-delete-some,
}
use moos_kernel.Graph.{Urn, Time, Relation, Envelope, EvalResult, GraphState}
use moos_kernel.Graph.State.{relations_from}
use moos_kernel.Graph.Consistent.{IsConsistent, contains-relations_from}
use moos_kernel.Fold.{new_relation, add_relation, remove_relation, relation_result}
use moos_kernel.Fold.Effect.{IsNamed, Effect, links, unlinks}
use moos_kernel.Fold.Program.{evaluate_program_at, stamps}
use moos_kernel.Fold.Atomic.{Run, done, step, evaluate_program_iff}
use moos_kernel.Operad.Occupancy.Counting.{Counted, counted}
use moos_kernel.Operad.Occupancy.{
  is_occupancy, Seats, empty, one, many, count_seats, seat_link, seat_unlink, RotateOccupantResult,
  rotate_seats, rotate_session_occupant,
}

-- No relation seats anyone in the session.
abbrev pub IsVacant : GraphState → Urn → Type 0
IsVacant s session =
    (u : Urn) (rel : Relation)
    → get u s.relations ≡ some rel
    → rel.src_urn ≡ session
    → is_occupancy rel ≡ false

-- The relation `relation` seats `occupant`, and no other relation seats anyone.
abbrev pub IsSoleSeat : GraphState → Urn → Urn → Urn → Type 0
IsSoleSeat s session relation occupant =
    ((rel : Relation) × (get relation s.relations ≡ some rel)
      × (rel.src_urn ≡ session)
      × (is_occupancy rel ≡ true)
      × (rel.tgt_urn ≡ occupant))
    × ((u : Urn) (rel : Relation)
        → get u s.relations ≡ some rel
        → rel.src_urn ≡ session
        → is_occupancy rel ≡ true
        → u ≡ relation)

-- The seat that the LINK makes is the only one.
IsSoleSeat-link :
    (s : GraphState) (session occupant actor relation : Urn) (t : Time)
    → IsVacant s session
    → IsSoleSeat
        (add_relation s (seat_link session occupant actor relation) t)
        session
        relation
        occupant
unfolding add_relation new_relation
IsSoleSeat-link s session occupant actor relation t vacant =
    let new = new_relation (seat_link session occupant actor relation) t in
    (
      (
        new,
        rw (get-put relation relation new s.relations, eq_refl relation) refl,
        refl,
        refl,
        refl,
      ),
      λ u rel f from occ. elim (get-put_cases relation u new rel s.relations f) [
        | inl (e, same) ↦ sym e
        | inr old ↦ absurd (ground (arith, vacant u rel old from))
      ],
    )

IsVacant-unlink :
    (s : GraphState) (session actor : Urn) (prior : Relation)
    → ((u : Urn) (rel : Relation)
        → get u s.relations ≡ some rel
        → rel.src_urn ≡ session
        → is_occupancy rel ≡ true
        → u ≡ prior.urn)
    → IsVacant (remove_relation s (seat_unlink actor prior.urn) prior) session
unfolding remove_relation
IsVacant-unlink s session actor prior only u rel f from = elim (Bool-cases (is_occupancy rel)) [
  | inr vacant ↦ vacant
  | inl occ ↦ absurd (
      ground (
        arith,
        only u rel (get-delete-some prior.urn u rel s.relations f) from occ,
        get-delete prior.urn u s.relations,
        eq_iff prior.urn u,
      ))
]

module _ (s : GraphState) (session occupant actor relation : Urn) where
  -- The guards of `RotateSessionOccupant` before the walk.
  record Guarded : Type 0 where
    session_named : IsNamed session
    occupant_named : IsNamed occupant
    relation_named : IsNamed relation
    actor_named : IsNamed actor
    session_exists : is_some (get session s.nodes) ≡ true
    occupant_exists : is_some (get occupant s.nodes) ≡ true

  guards :
      (res : RotateOccupantResult)
      → rotate_session_occupant s session occupant actor relation ≡ ok res
      → Guarded
        × (rotate_seats s
              (count_seats s empty (relations_from s session))
              session
              occupant
              actor
              relation
            ≡ ok res)
  unfolding rotate_session_occupant
  guards res h = (
    record {
      session_named = ground arith;
      occupant_named = ground arith;
      relation_named = ground arith;
      actor_named = ground arith;
      session_exists = ground arith;
      occupant_exists = ground arith;
    },
    ground arith,
  )

  link-Effect :
      (v : GraphState) (t : Time)
      → Guarded
      → v.nodes ≡ s.nodes
      → get relation v.relations ≡ none
      → Effect v
          (seat_link session occupant actor relation)
          t
          (add_relation v (seat_link session occupant actor relation) t)
          (relation_result relation)
  link-Effect v t g nodes fresh = elim (Option-cases (get session s.nodes)) [
    | inl e ↦ absurd (ground (arith, g.session_exists))
    | inr (a, e) ↦ elim (Option-cases (get occupant s.nodes)) [
      | inl f ↦ absurd (ground (arith, g.occupant_exists))
      | inr (b, f) ↦
          links a b refl g.actor_named g.relation_named g.session_named g.occupant_named
            (rw nodes e) (rw nodes f) fresh refl refl refl
    ]
  ]

  -- The batch of a rotation, for each outcome of the walk.
  rotation-Run :
      (c : IsConsistent s) (q : Seats) (stamp : ℕ → Time) (res : RotateOccupantResult)
      → get "" s.relations ≡ none
      → Counted s (relations_from s session) q
      → Guarded
      → rotate_seats s q session occupant actor relation ≡ ok res
      → (s' : GraphState) × (rs : List EvalResult) × Run stamp 0 s res.envelopes s' rs
        × IsSoleSeat s' session relation occupant
  unfolding rotate_seats
  rotation-Run c many stamp res blank at g h = absurd (ground arith)
  rotation-Run c empty stamp res blank at g h =
      let env = seat_link session occupant actor relation in
      let s' = add_relation s env (stamp 0) in
      let fresh : get relation s.relations ≡ none = ground arith in
      let same : env ∷ [] ≡ res.envelopes = ground arith in
      (
        s',
        relation_result relation ∷ [],
        subst (λ (l : List Envelope). Run stamp 0 s l s' (relation_result relation ∷ [])) same
            (step (link-Effect s (stamp 0) g refl fresh) done),
        IsSoleSeat-link s session occupant actor relation (stamp 0) (λ u rel f from.
            at u rel
              (ground (arith, contains-relations_from s c session u, eq_iff rel.src_urn session))
              f),
      )
  rotation-Run c (one prior) stamp res blank (u, m, here, occ, only) g h =
      let name : prior.urn ≡ u = c.relation_urn u prior here in
      let found : get prior.urn s.relations ≡ some prior =
        subst (λ (k : Urn). get k s.relations ≡ some prior) (sym name) here in
      let out = seat_unlink actor prior.urn in
      let env = seat_link session occupant actor relation in
      let s1 = remove_relation s out prior in
      let s' = add_relation s1 env (stamp 1) in
      let named : IsNamed prior.urn = ground (arith, eq_iff prior.urn "") in
      let fresh : get relation s.relations ≡ none = ground arith in
      let fresh' : get relation s1.relations ≡ none =
        unfold remove_relation in ground (arith, get-delete prior.urn relation s.relations) in
      let same : out ∷ env ∷ [] ≡ res.envelopes = ground arith in
      (
        s',
        relation_result prior.urn ∷ relation_result relation ∷ [],
        subst
            (λ (l : List Envelope).
              Run stamp 0 s l s' (relation_result prior.urn ∷ relation_result relation ∷ []))
            same
            (step (unlinks prior refl g.actor_named named found refl refl)
              (step (link-Effect s1 (stamp 1) g (unfold remove_relation in refl) fresh') done)),
        IsSoleSeat-link s1 session occupant actor relation (stamp 1) (
            IsVacant-unlink s session actor prior (λ v rel f from k.
              only v rel
                (ground (arith, contains-relations_from s c session v, eq_iff rel.src_urn session))
                f k
              ∙ sym name)),
      )

  -- On a consistent state in which no relation has the empty URN: where the helper returns a program,
  -- the program applies as a batch, with any timestamps, and afterwards the new relation seats the new
  -- occupant in the session and no other relation of the session seats anyone.
  pub rotation_seats :
      (res : RotateOccupantResult) (wall : ℕ → Time) (applied_at : List Time)
      → IsConsistent s
      → get "" s.relations ≡ none
      → rotate_session_occupant s session occupant actor relation ≡ ok res
      → length applied_at ≡ length res.envelopes
      → (s' : GraphState) × (rs : List EvalResult) × (evaluate_program_at wall s res.envelopes
            applied_at
          ≡ (s', ok rs))
        × IsSoleSeat s' session relation occupant
  rotation_seats res wall applied_at c blank h lengths =
      let (g, seated) = guards res h in
      let (s', rs, run, sole) =
        rotation-Run c (count_seats s empty (relations_from s session))
          (stamps wall res.envelopes applied_at) res blank (counted s (relations_from s session)) g
          seated in
      (s', rs, (evaluate_program_iff wall s res.envelopes applied_at c s' rs lengths).1 run, sole)
