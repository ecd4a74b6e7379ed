-- ===== src/Reactive/Predicate/Nesting.antt =====
-- internal/reactive/predicate.go: a predicate and those of its `predicates` list.
use moos_kernel.Prelude.{
  All, String, ◌≡◌, refl, inl, inr, Bool, true, false, Option, none, some, List, ◌∷◌, map, ◌==◌,
  if◌then◌else◌, Option-cases,
}
use moos_kernel.Graph.{
  Urn, Int64, Value, null, bool, str, int, int64, float64, array, object, Items, nil, cons, Fields,
  end, field, GraphState,
}
use moos_kernel.Reactive.Predicate.{
  field_of, objects, objects_in, objects_found, extract_predicates, evaluate_with, inner_results,
  array_results, item_results, evaluate_map,
}

-- Each of the predicates inside has the property.
abbrev pub Inner : (Fields → Type 0) → Option (List Fields) → Type 0
Inner P none = Unit
Inner P (some ps) = All P ps

module _ (P : Fields → Type 0) (step : (p : Fields) → Inner P (extract_predicates p) → P p) where
  Inner-push :
      (p : Fields) (o : Option (List Fields))
      → P p
      → Inner P o
      → Inner P (elim o [ none ↦ none | some ps ↦ some (p ∷ ps) ])
  Inner-push p none h i = tt
  Inner-push p (some ps) h i = (h, i)

  -- The first field, where it is the list, else the others.
  Inner-first :
      (b : Bool) (v : Value) (o : Option Value)
      → Inner P (objects_in v)
      → Inner P (objects_found o)
      → Inner P (objects_found (if b then some v else o))
  Inner-first true v o h i = h
  Inner-first false v o h i = i

  mutual
    unfolding extract_predicates field_of objects

    Inner-fields : (p : Fields) → Inner P (extract_predicates p)
    Inner-fields end = tt
    Inner-fields (field j v fs) =
        Inner-first (j == "predicates") v (field_of "predicates" fs) (Inner-array v)
          (Inner-fields fs)

    Inner-array : (v : Value) → Inner P (objects_in v)
    Inner-array (array xs) = Inner-items xs
    Inner-array null = tt
    Inner-array (bool b) = tt
    Inner-array (str s) = tt
    Inner-array (int n) = tt
    Inner-array (int64 n) = tt
    Inner-array (float64 n) = tt
    Inner-array (object p) = tt

    Inner-items : (xs : Items) → Inner P (objects xs)
    Inner-items nil = tt
    Inner-items (cons (object p) xs) =
        Inner-push p (objects xs) (step p (Inner-fields p)) (Inner-items xs)
    Inner-items (cons null xs) = tt
    Inner-items (cons (bool b) xs) = tt
    Inner-items (cons (str s) xs) = tt
    Inner-items (cons (int n) xs) = tt
    Inner-items (cons (int64 n) xs) = tt
    Inner-items (cons (float64 n) xs) = tt
    Inner-items (cons (array ys) xs) = tt

  -- Induction on a predicate and those inside it.
  pub Fields-induction : (p : Fields) → P p
  Fields-induction p = step p (Inner-fields p)

module _ (print_value : Value → String) (state : GraphState) (current_t : Int64)
    (session : Urn) where
  abbrev pub run : Fields → Bool
  run = evaluate_map print_value state current_t session

  abbrev pub results_of : Option (List Fields) → Option (List Bool)
  results_of none = none
  results_of (some ps) = some (map run ps)

  results-first :
      (b : Bool) (v : Value) (o : Option Value) (r s : Option (List Bool))
      → r ≡ results_of (objects_in v)
      → s ≡ results_of (objects_found o)
      → (if b then r else s) ≡ results_of (objects_found (if b then some v else o))
  results-first true v o r s h i = h
  results-first false v o r s h i = i

  mutual
    unfolding inner_results evaluate_map extract_predicates field_of objects

    fields_results :
        (p : Fields)
        → inner_results print_value state current_t session p ≡ results_of (extract_predicates p)
    fields_results end = refl
    fields_results (field j v fs) =
        results-first (j == "predicates") v (field_of "predicates" fs) _ _ (value_results v)
          (fields_results fs)

    value_results :
        (v : Value)
        → array_results print_value state current_t session v ≡ results_of (objects_in v)
    value_results (array xs) = items_results xs
    value_results null = refl
    value_results (bool b) = refl
    value_results (str s) = refl
    value_results (int n) = refl
    value_results (int64 n) = refl
    value_results (float64 n) = refl
    value_results (object p) = refl

    items_results :
        (xs : Items) → item_results print_value state current_t session xs ≡ results_of (objects xs)
    items_results nil = refl
    items_results (cons (object p) xs) = elim (Option-cases (objects xs)) [
      | inl e ↦ rw (items_results xs, e) refl
      | inr (ps, e) ↦ rw (items_results xs, e) refl
    ]
    items_results (cons null xs) = refl
    items_results (cons (bool b) xs) = refl
    items_results (cons (str s) xs) = refl
    items_results (cons (int n) xs) = refl
    items_results (cons (int64 n) xs) = refl
    items_results (cons (float64 n) xs) = refl
    items_results (cons (array ys) xs) = refl

  -- The one pass of the model evaluates the extracted predicates one by one.
  pub evaluate_map_lem :
      (p : Fields)
      → run p
        ≡ evaluate_with print_value state current_t session p (results_of (extract_predicates p))
  unfolding evaluate_map
  evaluate_map_lem p = rw fields_results refl
