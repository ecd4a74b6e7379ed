-- ===== src/Reactive/Predicate.antt =====
-- internal/reactive/predicate.go: the predicate of a t_hook, a JSON object.
--
-- An int32, a float32 and a json.Number do not occur in a `Value`.
use moos_kernel.Prelude.{
  ◌≤◌, String, Bool, true, false, not, ◌&&◌, ◌||◌, Option, none, some, List, [], ◌∷◌, ◌==◌,
  if◌then◌else◌, Map, get, is_some, map,
}
use moos_kernel.Graph.{
  Urn, Int64, Value, null, bool, str, int, int64, float64, array, object, Items, nil, cons, Fields,
  end, field, Node, Relation, GraphState,
}
use moos_kernel.Graph.Numbers.{int64_gt, int64_ge, float_to_int64}
use moos_kernel.Graph.State.{relations_from}
pub mod Nesting
pub mod Fires
pub mod Leaves
pub mod Decides

-- `p[k]`
unfoldable pub field_of : String → Fields → Option Value
field_of k end = none
field_of k (field j v fs) = if j == k then some v else field_of k fs

-- `p[k].(string)`
abbrev pub text : Option Value → Option String
text (some (str s)) = some s
text _ = none

-- `coerceInt`
unfoldable pub coerce_int : Value → Option Int64
coerce_int (int n) = some n
coerce_int (int64 n) = some n
coerce_int (float64 bits) = some (float_to_int64 bits)
coerce_int _ = none

-- A required number.
unfoldable pub number : String → Fields → Option Int64
unfolding coerce_int
number k p = elim (field_of k p) [ none ↦ none | some raw ↦ coerce_int raw ]

-- A required text that is not empty.
unfoldable pub name_of : String → Fields → Option String
name_of k p = elim (text (field_of k p)) [ none ↦ none | some s ↦ if s == "" then none else some s ]

-- The labels of the switch.
pub data PredicateKind : Type 0 where
  time_gate window on_prop_set when_capability after_urn before_urn all_of any_of : PredicateKind
  unknown : PredicateKind

unfoldable pub kind_named : String → PredicateKind
kind_named s =
    if s == "fires_at" || s == "closes_at" || s == "expires_at"
    then time_gate
    else if s == "window"
    then window
    else if s == "on_prop_set"
    then on_prop_set
    else if s == "when_capability"
    then when_capability
    else if s == "after_urn"
    then after_urn
    else if s == "before_urn"
    then before_urn
    else if s == "all_of"
    then all_of
    else if s == "any_of"
    then any_of
    else unknown

-- A kind that is missing, empty or no text is unknown.
unfoldable pub predicate_kind : Fields → PredicateKind
unfolding kind_named name_of
predicate_kind p = elim (name_of "kind" p) [ none ↦ unknown | some s ↦ kind_named s ]

-- The elements of an array of objects.
unfoldable pub objects : Items → Option (List Fields)
objects nil = some []
objects (cons (object p) xs) = elim (objects xs) [ none ↦ none | some ps ↦ some (p ∷ ps) ]
objects (cons _ xs) = none

-- A value that is no array has no elements.
abbrev pub objects_in : Value → Option (List Fields)
objects_in (array xs) = objects xs
objects_in _ = none

abbrev pub objects_found : Option Value → Option (List Fields)
objects_found none = none
objects_found (some raw) = objects_in raw

-- `extractPredicates`
unfoldable pub extract_predicates : Fields → Option (List Fields)
extract_predicates p = objects_found (field_of "predicates" p)

-- The loops of `all_of` and `any_of` over the results.
unfoldable pub every : List Bool → Bool
every [] = true
every (b ∷ bs) = if b then every bs else false

unfoldable pub any : List Bool → Bool
any [] = false
any (b ∷ bs) = if b then true else any bs

-- `fires_at`, `closes_at`, `expires_at`
unfoldable pub time_reached : Int64 → Fields → Bool
time_reached current_t p = elim (number "t" p) [ none ↦ false | some t ↦ int64_ge current_t t ]

unfoldable pub in_window : Int64 → Fields → Bool
in_window current_t p = elim (number "opens_at" p) [
  | none ↦ false
  | some opens_at ↦ elim (number "closes_at" p) [
    | none ↦ false
    | some closes_at ↦
        if int64_gt opens_at closes_at
        then false
        else int64_ge current_t opens_at && int64_gt closes_at current_t
  ]
]

-- The switch on `expected`.
abbrev pub as_expected : String → Bool → Bool
as_expected expected present =
    if expected == "" || expected == "set"
    then present
    else if expected == "unset"
    then not present
    else false

unfoldable pub expected_of : Fields → String
expected_of p = elim (text (field_of "expected" p)) [ none ↦ "" | some s ↦ s ]

unfoldable pub prop_presence : GraphState → Fields → Bool
prop_presence state p = elim (name_of "urn" p) [
  | none ↦ false
  | some urn ↦ elim (name_of "prop" p) [
    | none ↦ false
    | some prop ↦ elim (get urn state.nodes) [
      | none ↦ false
      | some node ↦ as_expected (expected_of p) (is_some (get prop node.properties))
    ]
  ]
]

-- The walk to the occupant, `""` where there is none.
unfoldable pub occupant_among : GraphState → List Urn → Urn
occupant_among state [] = ""
occupant_among state (r ∷ rs) =
    let rest = occupant_among state rs in
    elim (get r state.relations) [
      | none ↦ rest
      | some rel ↦
          if rel.src_port == "has-occupant"
            && rel.tgt_port == "is-occupant-of"
            && is_some (get rel.tgt_urn state.nodes)
          then rel.tgt_urn
          else rest
    ]

-- The walk from the occupant to the capability.
unfoldable pub governs_among : GraphState → Urn → Urn → List Urn → Bool
governs_among state occupant target [] = false
governs_among state occupant target (r ∷ rs) =
    let rest = governs_among state occupant target rs in
    elim (get r state.relations) [
      | none ↦ rest
      | some rel ↦
          if rel.src_urn == occupant && rel.src_port == "governs" && rel.tgt_urn == target
          then true
          else rest
    ]

unfoldable pub has_capability : GraphState → Urn → Fields → Bool
unfolding occupant_among governs_among
has_capability state session p = elim (name_of "cap_urn" p) [
  | none ↦ false
  | some cap ↦ if session == "" then false else elim (get session state.nodes) [
    | none ↦ false
    | some node ↦
        let occupant = occupant_among state (relations_from state session) in
        if not (node.type_id == "session") || occupant == ""
        then false
        else is_some (get cap state.nodes)
          && governs_among state occupant cap (relations_from state occupant)
  ]
]

-- `propValueEquals`
unfoldable pub prop_value_equals : (Value → String) → Value → Value → Bool
prop_value_equals print_value actual expected = print_value actual == print_value expected

-- What `after_urn` reads: `none` where the predicate is malformed, else whether the property has the
-- value, with `missing` where the node or the property is missing.
unfoldable pub reached : (Value → String) → GraphState → Bool → Bool → Fields → Bool
unfolding prop_value_equals
reached print_value state missing wanted p = elim (name_of "urn" p) [
  | none ↦ false
  | some urn ↦ elim (name_of "prop" p) [
    | none ↦ false
    | some prop ↦ elim (field_of "value" p) [
      | none ↦ false
      | some value ↦ elim (get urn state.nodes) [
        | none ↦ missing
        | some node ↦ elim (get prop node.properties) [
          | none ↦ missing
          | some q ↦
              if wanted
              then prop_value_equals print_value q.value value
              else not (prop_value_equals print_value q.value value)
        ]
      ]
    ]
  ]
]

module _ (print_value : Value → String) (state : GraphState) (current_t : Int64)
    (session : Urn) where
  -- The switch, with the results of the predicates inside.
  unfoldable pub evaluate_with : Fields → Option (List Bool) → Bool
  evaluate_with p results = elim (predicate_kind p) [
    | time_gate ↦ time_reached current_t p
    | window ↦ in_window current_t p
    | on_prop_set ↦ prop_presence state p
    | when_capability ↦ has_capability state session p
    | after_urn ↦ reached print_value state false true p
    | before_urn ↦ reached print_value state true false p
    | all_of ↦ elim results [ none ↦ false | some bs ↦ every bs ]
    | any_of ↦ elim results [ none ↦ false | some bs ↦ any bs ]
    | unknown ↦ false
  ]

  unfoldable mutual
    unfolding evaluate_with

    -- What the predicates inside evaluate to, `none` where `extractPredicates` fails.
    pub inner_results : Fields → Option (List Bool)
    inner_results end = none
    inner_results (field j v fs) =
        let rest = inner_results fs in if j == "predicates" then array_results v else rest

    pub array_results : Value → Option (List Bool)
    array_results (array xs) = item_results xs
    array_results _ = none

    pub item_results : Items → Option (List Bool)
    item_results nil = some []
    item_results (cons (object p) xs) = elim (item_results xs) [
      | none ↦ none
      | some bs ↦ some (evaluate_with p (inner_results p) ∷ bs)
    ]
    item_results (cons _ xs) = none

  -- `evaluateMapWithContext`
  unfoldable pub evaluate_map : Fields → Bool
  unfolding evaluate_with inner_results
  evaluate_map p = evaluate_with p (inner_results p)

  -- `EvaluateThookPredicateWithContext`: no other value decodes to an object with a kind.
  unfoldable pub evaluate_thook_predicate_with_context : Value → Bool
  unfolding evaluate_map
  evaluate_thook_predicate_with_context (object p) = evaluate_map p
  evaluate_thook_predicate_with_context _ = false

-- `EvaluateThookPredicate`
unfoldable pub evaluate_thook_predicate : (Value → String) → Value → GraphState → Int64 → Bool
unfolding evaluate_thook_predicate_with_context
evaluate_thook_predicate print_value pred state current_t =
    evaluate_thook_predicate_with_context print_value state current_t "" pred
