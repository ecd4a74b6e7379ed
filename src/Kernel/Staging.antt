-- ===== src/Kernel/Staging.antt =====
-- internal/kernel/sweep.go: the pair of rewrites that stages a proposal for a t_hook.
use Prim.Native.Char.{code}
use Prim.Native.String.{◌++◌}
use moos_kernel.Prelude.{String, Option, none, some, [], ◌∷◌, nat_eq, if◌then◌else◌, Map, get, put}
use moos_kernel.Graph.{
  Urn, Time, Int64, add, mutate, Value, null, str, int, Property, Node, Envelope, no_envelope,
}

-- Go's library calls: `%d` of an int64, `Format` of a time, and the JSON round trip of an envelope,
-- which may fail.
pub record Texts : Type 0 where
  pub decimal : Int64 → String
  pub format : Time → String
  pub to_json : Envelope → Option Value

-- What follows the last colon, if there is one.
unfoldable pub after_colon : String → Option String
after_colon String.[] = none
after_colon (String.◌∷◌ c s) =
    let here = if nat_eq (code c) b':' then some s else none in
    elim (after_colon s) [ some t ↦ some t | none ↦ here ]

-- `slugFromURN`
unfoldable pub slug_from_urn : Urn → String
unfolding after_colon
slug_from_urn urn = elim (after_colon urn) [ none ↦ urn | some slug ↦ slug ]

-- `Sprintf` of the proposal's URN: the trigger of an event-fired hook has the letters `evt`, the tick
-- of the sweep the letters `tick`.
unfoldable pub proposal_urn : Texts → String → Urn → Int64 → Int64 → Int64 → Urn
unfolding slug_from_urn
proposal_urn texts cause hook day seq n =
    "urn:moos:proposal:kernel."
    ++ slug_from_urn hook
    ++ "-t"
    ++ texts.decimal day
    ++ cause
    ++ texts.decimal seq
    ++ "-n"
    ++ texts.decimal n

abbrev pub event_proposal_urn : Texts → Urn → Int64 → Int64 → Int64 → Urn
event_proposal_urn texts = proposal_urn texts "-evt"

abbrev pub tick_proposal_urn : Texts → Urn → Int64 → Int64 → Int64 → Urn
tick_proposal_urn texts = proposal_urn texts "-tick"

unfoldable pub proposal_title : Texts → Urn → Int64 → String
proposal_title texts hook day = "Fire t_hook " ++ hook ++ " at T=" ++ texts.decimal day

abbrev pub plain_property : Value → String → String → Property
plain_property value mutability scope = record {
  value = value;
  mutability = mutability;
  authority_scope = scope;
  stratum_origin = 0;
  validation_type = "";
}

abbrev pub with_proposed : Option Value → Map Property → Map Property
with_proposed none props = props
with_proposed (some proposed) props =
    put "proposed_envelope" (plain_property proposed "immutable" "") props

-- The owner is copied where it is there and not null.
unfoldable pub with_owner : Node → Map Property → Map Property
with_owner hook props = elim (get "owner_urn" hook.properties) [
  | none ↦ props
  | some p ↦ elim p.value [
    | null ↦ props
    | _ ↦ put "owner_urn" (plain_property p.value "immutable" "") props
  ]
]

unfoldable pub proposal_properties : Texts → Node → Int64 → String → Option Value → Map Property
unfolding with_owner proposal_title
proposal_properties texts hook day now proposed = with_owner hook (
    with_proposed proposed (
      ("title", plain_property (str (proposal_title texts hook.urn day)) "immutable" "")
      ∷ ("status", plain_property (str "pending") "mutable" "principal")
      ∷ ("created_at", plain_property (str now) "immutable" "")
      ∷ ("source_t_hook_urn", plain_property (str hook.urn) "immutable" "")
      ∷ ("fires_at_t", plain_property (int day) "immutable" "")
      ∷ []))

-- `stageHookProposalPair`; `none` is a nil `proposedEnvelope`.
unfoldable pub stage_hook_proposal_pair :
    Texts → Node → Int64 → Urn → Urn → String → Option Value → Envelope × Envelope
unfolding proposal_properties
stage_hook_proposal_pair texts hook day actor urn now proposed = (
  record no_envelope {
    rewrite_type = add;
    actor = actor;
    node_urn = urn;
    type_id = "governance_proposal";
    properties = proposal_properties texts hook day now proposed;
  },
  record no_envelope {
    rewrite_type = mutate;
    actor = actor;
    target_urn = hook.urn;
    field = "firing_state";
    new_value = str "proposed";
  },
)
