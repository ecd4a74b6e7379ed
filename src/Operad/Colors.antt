-- ===== src/Operad/Colors.antt =====
-- internal/operad/port_colors.go: the frozen table of port colors.
use moos_kernel.Prelude.{String, List, [], ◌∷◌, ◌++◌, map, Map}

-- The ports of one color.
abbrev colored : String → List String → Map String
colored color ports = map (λ port. (port, color)) ports

-- `legacyPortColors`, in the order of the source.
unfoldable pub legacy_port_colors : Map String
legacy_port_colors =
    colored "auth" (
      "governs" ∷ "governed-by" ∷ "granted-by" ∷ "identity" ∷ "promotes-to" ∷ "promotion-target"
      ∷ "delegates-to" ∷ "delegated-by" ∷ "promotes" ∷ "promoted-from" ∷ [])
    ++ colored "topology" (
        "contains" ∷ "contained-in" ∷ "owns" ∷ "owned-by" ∷ "child" ∷ "hosts" ∷ "hosted-on"
        ∷ "binds" ∷ "bound-to" ∷ "spans" ∷ "spanned-by" ∷ [])
    ++ colored "transport" (
        "exposes" ∷ "exposed-by" ∷ "connects-to" ∷ "connected-to" ∷ "implements" ∷ "implemented-by"
        ∷ "routes-to" ∷ "routed-from" ∷ "shard-of" ∷ "sharded-by" ∷ [])
    ++ colored "compute" ("computes-on" ∷ "computed-by" ∷ [])
    ++ colored "storage" (
        "persisted-in" ∷ "persists" ∷ "synced-via" ∷ "sync-target" ∷ "provides-kb" ∷ "kb-source"
        ∷ "produces" ∷ "produced-by" ∷ "asserts" ∷ "asserted-in" ∷ "tagged" ∷ "tagged-in" ∷ [])
    ++ colored "workflow" (
        "participates" ∷ "participated-by" ∷ "focus" ∷ "on" ∷ "anchors" ∷ "anchor" ∷ "causes"
        ∷ "caused-by" ∷ "summarizes" ∷ "daily-summary" ∷ "depends-on" ∷ "depended-by"
        ∷ "participant" ∷ "triggers" ∷ "triggered-by" ∷ "guards" ∷ "guarded-by" ∷ "emits"
        ∷ "emitted-by" ∷ "watches" ∷ "watched-by" ∷ "blocks" ∷ "blocked-by" ∷ "scheduled-after"
        ∷ "scheduled-before" ∷ "steers" ∷ "steered-by" ∷ "composes" ∷ "composed-by" ∷ "opens-on"
        ∷ "occupied-by" ∷ "has-occupant" ∷ "is-occupant-of" ∷ "pins-urn" ∷ "pinned-by-session"
        ∷ "filtered-by" ∷ "filters-session" ∷ "mounts-tool" ∷ "tool-mounted-in-session"
        ∷ "has-purpose" ∷ "purpose-of-session" ∷ "presents-as" ∷ "presented-by" ∷ [])
    ++ colored "semantic" ("{semantic}" ∷ [])
    ++ colored "projection" ("projected-to" ∷ "rendered-as" ∷ "displayed-as" ∷ [])
