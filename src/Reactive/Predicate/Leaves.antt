-- ===== src/Reactive/Predicate/Leaves.antt =====
-- internal/reactive/predicate.go: each kind of predicate without predicates inside, evaluated.
use moos_kernel.Prelude.{
  String, ◌≡◌, refl, inl, inr, Bool, true, false, Option, none, some, List, [], ◌∷◌, arith, ◌==◌,
  eq_iff, eq_refl, ◌&&◌, Bool-cases, Option-cases, get, is_some, contains,
}
use moos_kernel.Graph.{Urn, Int64, Value, Fields, Property, Node, Relation, GraphState}
use moos_kernel.Graph.State.{relations_from}
use moos_kernel.Reactive.Predicate.{
  time_gate, window, on_prop_set, when_capability, after_urn, before_urn, predicate_kind, field_of,
  number, name_of, expected_of, as_expected, time_reached, in_window, prop_presence, occupant_among,
  governs_among, has_capability, reached, prop_value_equals, evaluate_with,
}
use moos_kernel.Reactive.Predicate.Fires.{
  Due, time, inside, present, absent, after, before, capable,
}

module _ (state : GraphState) where
  -- The relation by which the occupant governs the capability.
  abbrev Governs : Urn → Urn → List Urn → Type 0
  Governs occupant target rs =
      (u : Urn) × (rel : Relation) × (contains u rs ≡ true)
      × (get u state.relations ≡ some rel)
      × (rel.src_urn ≡ occupant)
      × (rel.src_port ≡ "governs")
      × (rel.tgt_urn ≡ target)

  Governs-skip :
      (occupant target r : Urn) (rs : List Urn)
      → Governs occupant target rs
      → Governs occupant target (r ∷ rs)
  unfolding contains
  Governs-skip occupant target r rs (u, rel, i, f, a, b, c) = (u, rel, ground arith, f, a, b, c)

  governs_among_found :
      (occupant target : Urn) (rs : List Urn)
      → governs_among state occupant target rs ≡ true
      → Governs occupant target rs
  unfolding governs_among contains
  governs_among_found occupant target [] h = absurd (ground arith)
  governs_among_found occupant target (r ∷ rs) h = elim (Option-cases (get r state.relations)) [
    | inl e ↦
        Governs-skip occupant target r rs (governs_among_found occupant target rs (ground arith))
    | inr (rel, e) ↦
        elim (Bool-cases
          (rel.src_urn == occupant && rel.src_port == "governs" && rel.tgt_urn == target)) [
            | inl y ↦ (
              r,
              rel,
              ground (arith, eq_refl r),
              e,
              ground (arith, eq_iff rel.src_urn occupant),
              ground (arith, eq_iff rel.src_port "governs"),
              ground (arith, eq_iff rel.tgt_urn target),
            )
            | inr n ↦
                Governs-skip occupant target r rs
                  (governs_among_found occupant target rs (ground arith))
          ]
  ]

  governs_among_finds :
      (occupant target u : Urn) (rel : Relation) (rs : List Urn)
      → contains u rs ≡ true
      → get u state.relations ≡ some rel
      → rel.src_urn ≡ occupant
      → rel.src_port ≡ "governs"
      → rel.tgt_urn ≡ target
      → governs_among state occupant target rs ≡ true
  unfolding governs_among contains
  governs_among_finds occupant target u rel [] i f a b c = absurd (ground arith)
  governs_among_finds occupant target u rel (r ∷ rs) i f a b c = ground (
    arith,
    eq_iff r u,
    eq_iff rel.src_urn occupant,
    eq_iff rel.src_port "governs",
    eq_iff rel.tgt_urn target,
    λ (h : contains u rs ≡ true). governs_among_finds occupant target u rel rs h f a b c,
  )

module _ (print_value : Value → String) (state : GraphState) (current_t : Int64)
    (session : Urn) where
  abbrev pub evaluate : Fields → Option (List Bool) → Bool
  evaluate = evaluate_with print_value state current_t session

  pub Due-evaluates :
      (p : Fields) (r : Option (List Bool))
      → Due print_value state current_t session p
      → evaluate p r ≡ true
  unfolding evaluate_with time_reached in_window prop_presence has_capability reached
      prop_value_equals
  Due-evaluates p r (time t k n le) = ground arith
  Due-evaluates p r (inside o c k ho hc le lt) = ground arith
  Due-evaluates p r (present u f n k hu hf hn hq e) =
      ground (arith, eq_iff (expected_of p) "", eq_iff (expected_of p) "set")
  Due-evaluates p r (absent u f n k hu hf hn hq e) =
      let unset : as_expected (expected_of p) false ≡ true = rw e refl in ground arith
  Due-evaluates p r (after u f v n q k hu hf hv hn hq e) =
      ground (arith, eq_iff (print_value q.value) (print_value v))
  Due-evaluates p r (before u f v k hu hf hv ne) = elim (Option-cases (get u state.nodes)) [
    | inl e ↦ ground arith
    | inr (n, e) ↦ elim (Option-cases (get f n.properties)) [
      | inl g ↦ ground arith
      | inr (q, g) ↦ ground (arith, eq_iff (print_value q.value) (print_value v), ne n q e g)
    ]
  ]
  Due-evaluates p r (capable c k hc h) = ground (
    arith,
    eq_iff session "",
    eq_iff h.occupant "",
    eq_iff h.node.type_id "session",
    h.in_session,
    h.session_there,
    h.is_session,
    h.seated,
    h.someone,
    h.cap_there,
    governs_among_finds state h.occupant c h.relation_urn h.rel (relations_from state h.occupant)
        h.listed h.linked h.from h.port h.to,
  )

  pub time_reached-Due :
      (p : Fields)
      → predicate_kind p ≡ time_gate
      → time_reached current_t p ≡ true
      → Due print_value state current_t session p
  unfolding time_reached
  time_reached-Due p k h = elim (Option-cases (number "t" p)) [
    | inl e ↦ absurd (ground arith)
    | inr (t, e) ↦ time t k e (ground arith)
  ]

  pub in_window-Due :
      (p : Fields)
      → predicate_kind p ≡ window
      → in_window current_t p ≡ true
      → Due print_value state current_t session p
  unfolding in_window
  in_window-Due p k h = elim (Option-cases (number "opens_at" p)) [
    | inl e ↦ absurd (ground arith)
    | inr (o, e) ↦ elim (Option-cases (number "closes_at" p)) [
      | inl g ↦ absurd (ground arith)
      | inr (c, g) ↦ inside o c k e g (ground arith) (ground arith)
    ]
  ]

  presence-Due :
      (p : Fields) (urn prop : String) (node : Node)
      → predicate_kind p ≡ on_prop_set
      → name_of "urn" p ≡ some urn
      → name_of "prop" p ≡ some prop
      → get urn state.nodes ≡ some node
      → (o : Option Property) → get prop node.properties ≡ o
      → as_expected (expected_of p) (is_some o) ≡ true
      → Due print_value state current_t session p
  presence-Due p u f n k hu hf hn none e h =
      absent u f n k hu hf hn e (ground (arith, eq_iff (expected_of p) "unset"))
  presence-Due p u f n k hu hf hn (some q) e h =
      present u f n k hu hf hn e
        (ground (arith, eq_iff (expected_of p) "", eq_iff (expected_of p) "set"))

  pub prop_presence-Due :
      (p : Fields)
      → predicate_kind p ≡ on_prop_set
      → prop_presence state p ≡ true
      → Due print_value state current_t session p
  unfolding prop_presence
  prop_presence-Due p k h = elim (Option-cases (name_of "urn" p)) [
    | inl e ↦ absurd (ground arith)
    | inr (u, hu) ↦ elim (Option-cases (name_of "prop" p)) [
      | inl e ↦ absurd (ground arith)
      | inr (f, hf) ↦ elim (Option-cases (get u state.nodes)) [
        | inl e ↦ absurd (ground arith)
        | inr (n, hn) ↦ presence-Due p u f n k hu hf hn (get f n.properties) refl (ground arith)
      ]
    ]
  ]

  pub has_capability-Due :
      (p : Fields)
      → predicate_kind p ≡ when_capability
      → has_capability state session p ≡ true
      → Due print_value state current_t session p
  unfolding has_capability
  has_capability-Due p k h = elim (Option-cases (name_of "cap_urn" p)) [
    | inl e ↦ absurd (ground arith)
    | inr (c, hc) ↦ elim (Option-cases (get session state.nodes)) [
      | inl e ↦ absurd (ground arith)
      | inr (n, hn) ↦
          let occupant = occupant_among state (relations_from state session) in
          let (u, rel, i, f, a, b, d) =
            governs_among_found state occupant c (relations_from state occupant) (ground arith) in
          capable c k hc (record {
            node = n;
            occupant = occupant;
            relation_urn = u;
            rel = rel;
            in_session = ground (arith, eq_iff session "");
            session_there = hn;
            is_session = ground (arith, eq_iff n.type_id "session");
            seated = refl;
            someone = ground (arith, eq_iff occupant "");
            cap_there = ground arith;
            listed = i;
            linked = f;
            from = a;
            port = b;
            to = d;
          })
    ]
  ]

  pub after-Due :
      (p : Fields)
      → predicate_kind p ≡ after_urn
      → reached print_value state false true p ≡ true
      → Due print_value state current_t session p
  unfolding reached prop_value_equals
  after-Due p k h = elim (Option-cases (name_of "urn" p)) [
    | inl e ↦ absurd (ground arith)
    | inr (u, hu) ↦ elim (Option-cases (name_of "prop" p)) [
      | inl e ↦ absurd (ground arith)
      | inr (f, hf) ↦ elim (Option-cases (field_of "value" p)) [
        | inl e ↦ absurd (ground arith)
        | inr (v, hv) ↦ elim (Option-cases (get u state.nodes)) [
          | inl e ↦ absurd (ground arith)
          | inr (n, hn) ↦ elim (Option-cases (get f n.properties)) [
            | inl e ↦ absurd (ground arith)
            | inr (q, hq) ↦
                after u f v n q k hu hf hv hn hq
                  (ground (arith, eq_iff (print_value q.value) (print_value v)))
          ]
        ]
      ]
    ]
  ]

  pub before-Due :
      (p : Fields)
      → predicate_kind p ≡ before_urn
      → reached print_value state true false p ≡ true
      → Due print_value state current_t session p
  unfolding reached prop_value_equals
  before-Due p k h = elim (Option-cases (name_of "urn" p)) [
    | inl e ↦ absurd (ground arith)
    | inr (u, hu) ↦ elim (Option-cases (name_of "prop" p)) [
      | inl e ↦ absurd (ground arith)
      | inr (f, hf) ↦ elim (Option-cases (field_of "value" p)) [
        | inl e ↦ absurd (ground arith)
        | inr (v, hv) ↦
            before u f v k hu hf hv
              λ n q hn hq. ground (arith, eq_iff (print_value q.value) (print_value v))
      ]
    ]
  ]
