-- ===== src/Operad/Occupancy/Admin.antt =====
-- internal/operad/occupancy.go: what the walks from a session and from a principal find.
use moos_kernel.Prelude.{
  ◌≡◌, refl, sym, subst, inl, inr, ◌⊎◌, ◌↔◌, true, false, ◌&&◌, Option, none, some, List, [], ◌∷◌,
  ◌==◌, get, is_some, holds, contains, arith, eq_iff, eq_refl, Bool-cases, Option-cases,
}
use moos_kernel.Graph.{Urn, Relation, GraphState}
use moos_kernel.Graph.State.{relations_from}
use moos_kernel.Graph.Consistent.{IsConsistent, contains-relations_from}
use moos_kernel.Operad.Occupancy.{
  superadmin_role, is_occupancy, is_principal, seats, first_seated, resolve_session_occupant,
  grants_admin, any_grant, principal_is_admin, check_admin_capability,
}

abbrev pub IsSession : GraphState → Urn → Type 0
IsSession s u = holds (λ n. n.type_id == "session") (get u s.nodes) ≡ true

abbrev pub IsPrincipal : GraphState → Urn → Type 0
IsPrincipal s u = holds (λ n. is_principal n.type_id) (get u s.nodes) ≡ true

-- A canonical relation seats the principal `p` in the session.
abbrev pub Occupies : GraphState → Urn → Urn → Type 0
Occupies s session p =
    (u : Urn) × (rel : Relation) × (get u s.relations ≡ some rel)
    × (rel.src_urn ≡ session)
    × (is_occupancy rel ≡ true)
    × (rel.tgt_urn ≡ p)
    × IsPrincipal s p

-- A WF02 relation gives `p` the superadmin role.
abbrev pub Grants : GraphState → Urn → Type 0
Grants s p =
    (u : Urn) × (rel : Relation) × (get u s.relations ≡ some rel)
    × (rel.src_urn ≡ p)
    × (grants_admin rel ≡ true)

-- A named actor with the superadmin role: its own, or that of the principal seated in the session it is.
abbrev pub IsAdmin : GraphState → Urn → Type 0
IsAdmin s actor =
    ((actor == "") ≡ false)
    × ((IsSession s actor
          × ((p : Urn) × (resolve_session_occupant s actor ≡ some p)
              × IsPrincipal s p
              × Grants s p))
        ⊎ ((holds (λ n. n.type_id == "session") (get actor s.nodes) ≡ false)
            × IsPrincipal s actor
            × Grants s actor))

module _ (s : GraphState) where
  seats-some :
      (o : Option Relation) (p : Urn)
      → seats s o ≡ some p
      → (rel : Relation) × (o ≡ some rel)
        × (is_occupancy rel ≡ true)
        × (rel.tgt_urn ≡ p)
        × IsPrincipal s p
  unfolding seats
  seats-some none p h = absurd (ground arith)
  seats-some (some rel) p h =
      elim (Bool-cases
        (is_occupancy rel && holds (λ n. is_principal n.type_id) (get rel.tgt_urn s.nodes))) [
          | inr not_so ↦ absurd (ground arith)
          | inl so ↦
              let e : rel.tgt_urn ≡ p = ground arith in
              (rel, refl, ground arith, e, subst (λ (q : Urn). IsPrincipal s q) e (ground arith))
        ]

  first_seated-some :
      (us : List Urn) (p : Urn)
      → first_seated s us ≡ some p
      → (u : Urn) × (contains u us ≡ true) × (seats s (get u s.relations) ≡ some p)
  unfolding first_seated contains
  first_seated-some [] p h = absurd (ground arith)
  first_seated-some (u ∷ us) p h = elim (Option-cases (seats s (get u s.relations))) [
    | inr (q, e) ↦ (u, ground (arith, eq_refl u), ground arith)
    | inl e ↦ let (v, m, f) = first_seated-some us p (ground arith) in (v, ground arith, f)
  ]

  first_seated-none :
      (us : List Urn) (u : Urn)
      → first_seated s us ≡ none
      → contains u us ≡ true
      → seats s (get u s.relations) ≡ none
  unfolding first_seated contains
  first_seated-none [] u h m = absurd (ground arith)
  first_seated-none (v ∷ us) u h m = elim (Option-cases (seats s (get v s.relations))) [
    | inr (q, e) ↦ absurd (ground arith)
    | inl e ↦ elim (Bool-cases (v == u)) [
      | inl same ↦ ground (arith, eq_iff v u)
      | inr other ↦ first_seated-none us u (ground arith) (ground arith)
    ]
  ]

  any_grant_iff :
      (us : List Urn)
      → (any_grant s us ≡ true) ↔ (
          (u : Urn) × (rel : Relation) × (contains u us ≡ true)
          × (get u s.relations ≡ some rel)
          × (grants_admin rel ≡ true))
  unfolding any_grant contains
  any_grant_iff [] = ((λ h. absurd (ground arith)), (λ (u, rel, m, f, g). absurd (ground arith)))
  any_grant_iff (v ∷ us) = (
    (λ h. elim (Option-cases (get v s.relations)) [
      | inl gone ↦
          let (u, rel, m, f, g) = (any_grant_iff us).0 (ground arith) in
          (u, rel, ground arith, f, g)
      | inr (r, at) ↦ elim (Bool-cases (grants_admin r)) [
        | inl g ↦ (v, r, ground (arith, eq_refl v), at, g)
        | inr g ↦
            let (u, rel, m, f, k) = (any_grant_iff us).0 (ground arith) in
            (u, rel, ground arith, f, k)
      ]
    ]),
    (λ (u, rel, m, f, g). elim (Bool-cases (v == u)) [
      | inl same ↦
          let at : get v s.relations ≡ some rel = rw ((eq_iff v u).0 same) f in ground arith
      | inr other ↦
          let rest : any_grant s us ≡ true = (any_grant_iff us).1 (u, rel, ground arith, f, g) in
          ground arith
    ]),
  )

module _ (s : GraphState) (c : IsConsistent s) where
  -- For a session with a name in a consistent state, the walk returns a principal that a canonical relation seats
  -- there, and returns none only where no relation seats one.
  pub resolve_session_occupant_cases :
      (session : Urn)
      → IsSession s session
      → (session == "") ≡ false
      → ((p : Urn) × (resolve_session_occupant s session ≡ some p) × Occupies s session p)
        ⊎ (resolve_session_occupant s session ≡ none) × ((p : Urn) → ¬ Occupies s session p)
  unfolding resolve_session_occupant
  resolve_session_occupant_cases session kind named =
      rw (named, kind)
        (elim (Option-cases (first_seated s (relations_from s session))) [
          | inr (p, e) ↦
              let (u, m, seat) = first_seated-some s (relations_from s session) p e in
              let (rel, at, occ, to, pr) = seats-some s (get u s.relations) p seat in
              inl (
                p,
                e,
                (
                  u,
                  rel,
                  at,
                  ground (arith, contains-relations_from s c session u, eq_iff rel.src_urn session),
                  occ,
                  to,
                  pr,
                ),
              )
          | inl e ↦ inr (
            e,
            λ p (u, rel, at, from, occ, to, pr).
                let m : contains u (relations_from s session) ≡ true =
                  ground
                    (arith, contains-relations_from s c session u, eq_iff rel.src_urn session) in
                let blank : seats s (get u s.relations) ≡ none =
                  first_seated-none s (relations_from s session) u e m in
                let pr' : IsPrincipal s rel.tgt_urn =
                  subst (λ (q : Urn). IsPrincipal s q) (sym to) pr in
                absurd (unfold seats in ground arith),
          )
        ])

  principal_is_admin_iff :
      (p : Urn) → (principal_is_admin s p ≡ true) ↔ (IsPrincipal s p × Grants s p)
  unfolding principal_is_admin
  principal_is_admin_iff p = (
    (λ h.
        let (u, rel, m, at, g) = (any_grant_iff s (relations_from s p)).0 (ground arith) in
        (
          ground arith,
          (u, rel, at, ground (arith, contains-relations_from s c p u, eq_iff rel.src_urn p), g),
        )),
    (λ (pr, (u, rel, at, from, g)).
        let any : any_grant s (relations_from s p) ≡ true =
          (any_grant_iff s (relations_from s p)).1 (
            u,
            rel,
            ground (arith, contains-relations_from s c p u, eq_iff rel.src_urn p),
            at,
            g,
          ) in
        ground arith),
  )

  role_exists : (p : Urn) → Grants s p → is_some (get superadmin_role s.nodes) ≡ true
  role_exists p (u, rel, at, from, g) =
      let e : rel.tgt_urn ≡ superadmin_role =
        (eq_iff rel.tgt_urn superadmin_role).0 (ground arith) in
      subst (λ (r : Urn). is_some (get r s.nodes) ≡ true) e (c.tgt_exists u rel at)

  -- On a consistent state an actor passes for an administrator exactly where it is named and is
  -- itself a principal, or a session whose resolved occupant is one, to whom a WF02 relation gives
  -- the superadmin role.
  pub check_admin_capability_iff :
      (actor : Urn) → (check_admin_capability s actor ≡ true) ↔ IsAdmin s actor
  unfolding check_admin_capability
  check_admin_capability_iff actor = (forth, back)
    where
      forth : check_admin_capability s actor ≡ true → IsAdmin s actor
      forth h = elim (Bool-cases (holds (λ n. n.type_id == "session") (get actor s.nodes))) [
        | inr other ↦
            let (pr, gr) = (principal_is_admin_iff actor).0 (ground arith) in
            (ground arith, inr (other, pr, gr))
        | inl session ↦ elim (Option-cases (resolve_session_occupant s actor)) [
          | inl gone ↦ absurd (ground arith)
          | inr (p, e) ↦
              let (pr, gr) = (principal_is_admin_iff p).0 (ground arith) in
              (ground arith, inl (session, (p, e, pr, gr)))
        ]
      ]

      back : IsAdmin s actor → check_admin_capability s actor ≡ true
      back (named, inl (session, (p, e, pr, gr))) =
          let admin : principal_is_admin s p ≡ true = (principal_is_admin_iff p).1 (pr, gr) in
          let role : is_some (get superadmin_role s.nodes) ≡ true = role_exists p gr in
          let known : is_some (get actor s.nodes) ≡ true = ground arith in ground arith
      back (named, inr (other, pr, gr)) =
          let admin : principal_is_admin s actor ≡ true =
            (principal_is_admin_iff actor).1 (pr, gr) in
          let role : is_some (get superadmin_role s.nodes) ≡ true = role_exists actor gr in
          let known : is_some (get actor s.nodes) ≡ true = ground arith in ground arith
