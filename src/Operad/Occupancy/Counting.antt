-- ===== src/Operad/Occupancy/Counting.antt =====
-- internal/operad/occupancy.go, `RotateSessionOccupant`: what its walk over the session's relations counts.
use moos_kernel.Prelude.{
  ◌≡◌, refl, sym, ◌∙◌, ap, inl, inr, true, false, some, List, [], ◌∷◌, ◌==◌, get, contains, arith,
  eq_iff, eq_refl, Bool-cases, Option-cases,
}
use moos_kernel.Graph.{Urn, Relation, GraphState}
use moos_kernel.Operad.Occupancy.{is_occupancy, Seats, empty, one, many, count_seats}

module _ (s : GraphState) where
  count-many : (us : List Urn) → count_seats s many us ≡ many
  unfolding count_seats
  count-many [] = refl
  count-many (u ∷ us) = elim (Option-cases (get u s.relations)) [
    | inl e ↦ rw (e, count-many us)
    | inr (r, e) ↦ elim (Bool-cases (is_occupancy r)) [
      | inl f ↦ rw (e, f, count-many us)
      | inr f ↦ rw (e, f, count-many us)
    ]
  ]

  count-one :
      (us : List Urn) (r q : Relation)
      → count_seats s (one r) us ≡ one q
      → (q ≡ r)
        × ((u : Urn) (rel : Relation)
            → contains u us ≡ true
            → get u s.relations ≡ some rel
            → is_occupancy rel ≡ false)
  unfolding count_seats contains
  count-one [] r q h = (ground arith, λ u rel m. absurd (ground arith))
  count-one (v ∷ us) r q h = elim (Option-cases (get v s.relations)) [
    | inl e ↦
        let (same, apart) = count-one us r q (rw e at h) in
        (
          same,
          λ u rel m f. elim (Bool-cases (v == u)) [
            | inl w ↦ absurd (ground (arith, eq_iff v u))
            | inr w ↦ apart u rel (ground arith) f
          ],
        )
    | inr (x, e) ↦ elim (Bool-cases (is_occupancy x)) [
      | inl f ↦ absurd (ground (arith, count-many us))
      | inr f ↦
          let (same, apart) = count-one us r q (ground arith) in
          (
            same,
            λ u rel m g. elim (Bool-cases (v == u)) [
              | inl w ↦ ground (arith, eq_iff v u)
              | inr w ↦ apart u rel (ground arith) g
            ],
          )
    ]
  ]

  count-never : (us : List Urn) (y : Relation) → count_seats s (one y) us ≡ empty → true ≡ false
  unfolding count_seats
  count-never [] y k = absurd (ground arith)
  count-never (w ∷ us) y k = elim (Option-cases (get w s.relations)) [
    | inl d ↦ count-never us y (rw d at k)
    | inr (z, d) ↦ elim (Bool-cases (is_occupancy z)) [
      | inl o ↦ absurd (ground (arith, count-many us))
      | inr o ↦ count-never us y (ground arith)
    ]
  ]

  -- What the walk has found when it counted none, or one.
  abbrev pub Counted : List Urn → Seats → Type 0
  Counted us empty =
      (u : Urn) (rel : Relation)
      → contains u us ≡ true
      → get u s.relations ≡ some rel
      → is_occupancy rel ≡ false
  Counted us (one r) =
      (u : Urn) × (contains u us ≡ true)
      × (get u s.relations ≡ some r)
      × (is_occupancy r ≡ true)
      × ((v : Urn) (rel : Relation)
          → contains v us ≡ true
          → get v s.relations ≡ some rel
          → is_occupancy rel ≡ true
          → v ≡ u)
  Counted us many = Unit {0}

  pub counted : (us : List Urn) → Counted us (count_seats s empty us)
  unfolding count_seats contains
  counted [] = λ u rel m. absurd (ground arith)
  counted (v ∷ us) = elim (Option-cases (get v s.relations)) [
    | inl e ↦ rw e (skip (count_seats s empty us) (λ rel f. absurd (ground arith)) (counted us))
    | inr (x, e) ↦ elim (Bool-cases (is_occupancy x)) [
      | inr f ↦ rw (e, f) (skip (count_seats s empty us) (λ rel g. ground arith) (counted us))
      | inl f ↦ rw (e, f) (first x e f (count_seats s (one x) us) refl)
    ]
  ]
    where
      skip :
          (q : Seats)
          → ((rel : Relation) → get v s.relations ≡ some rel → is_occupancy rel ≡ false)
          → Counted us q
          → Counted (v ∷ us) q
      skip empty blank h = λ u rel m f. elim (Bool-cases (v == u)) [
        | inl w ↦ blank rel (rw ((eq_iff v u).0 w) f)
        | inr w ↦ h u rel (unfold contains in ground arith) f
      ]
      skip (one r) blank (u, m, at, occ, only) = (
        u,
        unfold contains in ground arith,
        at,
        occ,
        λ w rel n f g. elim (Bool-cases (v == w)) [
          | inl z ↦ absurd (ground (arith, blank rel (rw ((eq_iff v w).0 z) f)))
          | inr z ↦ only w rel (unfold contains in ground arith) f g
        ],
      )
      skip many blank h = tt

      first :
          (x : Relation)
          → get v s.relations ≡ some x
          → is_occupancy x ≡ true
          → (q : Seats) → count_seats s (one x) us ≡ q
          → Counted (v ∷ us) q
      first x e f empty h = λ u rel m g. absurd (ground (arith, count-never us x h))
      first x e f many h = tt
      first x e f (one r) h =
          let (same, apart) = count-one us x r h in
          (
            v,
            unfold contains in ground (arith, eq_refl v),
            e ∙ ap some (sym same),
            rw same f,
            λ w rel n g k. elim (Bool-cases (v == w)) [
              | inl z ↦ sym ((eq_iff v w).0 z)
              | inr z ↦ absurd (ground (arith, apart w rel (unfold contains in ground arith) g))
            ],
          )
