-- ===== src/Reactive/Predicate/Fires.antt =====
-- internal/reactive/predicate.go: when a predicate fires, as a relation on predicates.
use moos_kernel.Prelude.{
  ◌≤◌, ◌<◌, String, ◌≡◌, ◌≢◌, ◌⊎◌, true, none, some, List, [], ◌∷◌, get, is_some, contains,
}
use moos_kernel.Graph.{Urn, Int64, Value, Fields, Property, Node, Relation, GraphState}
use moos_kernel.Graph.Numbers.{rank}
use moos_kernel.Graph.State.{relations_from}
use moos_kernel.Reactive.Predicate.{
  time_gate, window, on_prop_set, when_capability, after_urn, before_urn, all_of, any_of,
  predicate_kind, field_of, number, name_of, expected_of, extract_predicates, occupant_among,
}

module _ (state : GraphState) (session : Urn) where
  -- The occupant of the session governs the capability.
  pub record Holds (cap : Urn) : Type 0 where
    pub node : Node
    pub occupant : Urn
    pub relation_urn : Urn
    pub rel : Relation
    pub in_session : session ≢ ""
    pub session_there : get session state.nodes ≡ some node
    pub is_session : node.type_id ≡ "session"
    pub seated : occupant_among state (relations_from state session) ≡ occupant
    pub someone : occupant ≢ ""
    pub cap_there : is_some (get cap state.nodes) ≡ true
    pub listed : contains relation_urn (relations_from state occupant) ≡ true
    pub linked : get relation_urn state.relations ≡ some rel
    pub from : rel.src_urn ≡ occupant
    pub port : rel.src_port ≡ "governs"
    pub to : rel.tgt_urn ≡ cap

module _ (print_value : Value → String) (state : GraphState) (current_t : Int64)
    (session : Urn) where
  -- The leaves: what each kind asks of the state and the time.
  pub data Due (p : Fields) : Type 0 where
    time :
        (t : Int64)
        → predicate_kind p ≡ time_gate
        → number "t" p ≡ some t
        → rank t ≤ rank current_t
        → Due p
    inside :
        (opens_at closes_at : Int64)
        → predicate_kind p ≡ window
        → number "opens_at" p ≡ some opens_at
        → number "closes_at" p ≡ some closes_at
        → rank opens_at ≤ rank current_t
        → rank current_t < rank closes_at
        → Due p
    present :
        (urn prop : String) (node : Node) {q : Property}
        → predicate_kind p ≡ on_prop_set
        → name_of "urn" p ≡ some urn
        → name_of "prop" p ≡ some prop
        → get urn state.nodes ≡ some node
        → get prop node.properties ≡ some q
        → (expected_of p ≡ "") ⊎ (expected_of p ≡ "set")
        → Due p
    absent :
        (urn prop : String) (node : Node)
        → predicate_kind p ≡ on_prop_set
        → name_of "urn" p ≡ some urn
        → name_of "prop" p ≡ some prop
        → get urn state.nodes ≡ some node
        → get prop node.properties ≡ none
        → expected_of p ≡ "unset"
        → Due p
    after :
        (urn prop : String) (value : Value) (node : Node) (q : Property)
        → predicate_kind p ≡ after_urn
        → name_of "urn" p ≡ some urn
        → name_of "prop" p ≡ some prop
        → field_of "value" p ≡ some value
        → get urn state.nodes ≡ some node
        → get prop node.properties ≡ some q
        → print_value q.value ≡ print_value value
        → Due p
    before :
        (urn prop : String) (value : Value)
        → predicate_kind p ≡ before_urn
        → name_of "urn" p ≡ some urn
        → name_of "prop" p ≡ some prop
        → field_of "value" p ≡ some value
        → ((node : Node) (q : Property)
            → get urn state.nodes ≡ some node
            → get prop node.properties ≡ some q
            → print_value q.value ≢ print_value value)
        → Due p
    capable :
        (cap : Urn)
        → predicate_kind p ≡ when_capability
        → name_of "cap_urn" p ≡ some cap
        → Holds state session cap
        → Due p

  mutual
    pub data Fires : Fields → Type 0 where
      leaf : {p : Fields} → Due p → Fires p
      all :
          {p : Fields} {ps : List Fields}
          → predicate_kind p ≡ all_of
          → extract_predicates p ≡ some ps
          → AllFire ps
          → Fires p
      some_one :
          {p : Fields} {ps : List Fields}
          → predicate_kind p ≡ any_of
          → extract_predicates p ≡ some ps
          → OneFires ps
          → Fires p

    pub data AllFire : List Fields → Type 0 where
      none_left : AllFire []
      both : {p : Fields} {ps : List Fields} → Fires p → AllFire ps → AllFire (p ∷ ps)

    pub data OneFires : List Fields → Type 0 where
      here : {p : Fields} {ps : List Fields} → Fires p → OneFires (p ∷ ps)
      there : {p : Fields} {ps : List Fields} → OneFires ps → OneFires (p ∷ ps)
