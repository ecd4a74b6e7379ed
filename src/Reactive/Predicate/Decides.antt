-- ===== src/Reactive/Predicate/Decides.antt =====
-- internal/reactive/predicate.go: the evaluator decides which predicates fire.
use moos_kernel.Prelude.{String, ◌≡◌, ◌∙◌, refl, Bool, true, Option, some, List, map, arith}
use moos_kernel.Graph.{Urn, Int64, Value, Fields, GraphState}
use moos_kernel.Reactive.Predicate.{
  all_of, any_of, predicate_kind, extract_predicates, evaluate_with, every, any,
}
use moos_kernel.Reactive.Predicate.Nesting.{run, results_of, evaluate_map_lem}
use moos_kernel.Reactive.Predicate.Fires.{
  Fires, leaf, all, some_one, AllFire, none_left, both, OneFires, here, there,
}
use moos_kernel.Reactive.Predicate.Leaves.{Due-evaluates}

module _ (print_value : Value → String) (state : GraphState) (current_t : Int64)
    (session : Urn) where
  abbrev evaluate : Fields → Option (List Bool) → Bool
  evaluate = evaluate_with print_value state current_t session

  with_all :
      (p : Fields) (ps : List Fields)
      → predicate_kind p ≡ all_of
      → extract_predicates p ≡ some ps
      → every (map (run print_value state current_t session) ps) ≡ true
      → evaluate p (results_of print_value state current_t session (extract_predicates p)) ≡ true
  unfolding evaluate_with
  with_all p ps k e h = ground arith

  with_any :
      (p : Fields) (ps : List Fields)
      → predicate_kind p ≡ any_of
      → extract_predicates p ≡ some ps
      → any (map (run print_value state current_t session) ps) ≡ true
      → evaluate p (results_of print_value state current_t session (extract_predicates p)) ≡ true
  unfolding evaluate_with
  with_any p ps k e h = ground arith

  mutual
    unfolding every any

    Fires-evaluates :
        {p : Fields}
        → Fires print_value state current_t session p
        → run print_value state current_t session p ≡ true
    Fires-evaluates (leaf {p} d) =
        evaluate_map_lem print_value state current_t session p
        ∙ Due-evaluates print_value state current_t session p _ d
    Fires-evaluates (all {p} {ps} k e f) =
        evaluate_map_lem print_value state current_t session p ∙ with_all p ps k e (AllFire-every f)
    Fires-evaluates (some_one {p} {ps} k e f) =
        evaluate_map_lem print_value state current_t session p ∙ with_any p ps k e (OneFires-any f)

    AllFire-every :
        {ps : List Fields}
        → AllFire print_value state current_t session ps
        → every (map (run print_value state current_t session) ps) ≡ true
    AllFire-every none_left = refl
    AllFire-every (both f fs) = rw (Fires-evaluates f) (AllFire-every fs)

    OneFires-any :
        {ps : List Fields}
        → OneFires print_value state current_t session ps
        → any (map (run print_value state current_t session) ps) ≡ true
    OneFires-any (here f) = rw (Fires-evaluates f) refl
    OneFires-any (there {p} f) = ground (arith, OneFires-any f)
