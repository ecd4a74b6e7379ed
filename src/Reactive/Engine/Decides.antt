-- ===== src/Reactive/Engine/Decides.antt =====
-- internal/reactive/engine.go, `EvaluateDetailed`: the engine yields exactly the firings of the rewrite.
use moos_kernel.Prelude.{String, Option, List}
use moos_kernel.Graph.{Urn, TypeId, Value, Node, Envelope, GraphState}
use moos_kernel.Reactive.Engine.{Firing, Json, watch, hook_firing}
use moos_kernel.Reactive.Engine.Fired.{Fired}

module _ (print_value : Value → String) (json : Json) (state : GraphState) (env : Envelope)
    (urn : Urn) (type_id : TypeId) where
  abbrev watched : Node → List Firing
  watched = watch print_value json state env urn type_id

  abbrev hook_of : Node → Option Firing
  hook_of = hook_firing print_value json state env urn type_id
