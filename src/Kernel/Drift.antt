-- ===== src/Kernel/Drift.antt =====
-- internal/kernel/runtime.go, `runHDCIndexAndDriftLocked`: the kernel's claims on drifted nodes; and
-- `Apply` and `ApplyProgram` with all that follows the commit.
use text.Mathlib.Text.{starts_with}
use Prim.Native.String
use moos_kernel.Prelude.{
  ℕ, suc, ◌*◌, ◌%◌, ◌^◌, String, Bool, ◌||◌, Option, none, some, List, [], ◌∷◌, ◌==◌, leb, ltb,
  if◌then◌else◌, Map, get, is_some, Result, ok, err,
}
use moos_kernel.Graph.{
  Urn, TypeId, add, link, other, str, float64, Property, Envelope, no_envelope, EvalResult,
  PersistedRewrite, GraphState,
}
use moos_kernel.Operad.Session.{resolve_session_for_envelope, resolved}
use moos_kernel.Reactive.Engine.{Json}
use moos_kernel.Kernel.{Host, Runtime, KernelError}
use moos_kernel.Kernel.Commit.{commit}
use moos_kernel.Kernel.Apply.{admit, finish_apply, hdc_actor_urn, apply_reactive}
use moos_kernel.Kernel.Program.{apply_program}
use moos_kernel.Kernel.Staging.{Texts, plain_property}
use moos_kernel.Kernel.Reactions.{run_reactive}

-- A row of the index: the drift is a float64.
pub record DriftRow : Type 0 where
  pub urn : Urn
  pub declared_type : TypeId
  pub expressed_type : TypeId
  pub drift : ℕ

-- The index over the vectors of the nodes, in floating point, and SHA-1: the rows above the threshold
-- of a state, and the short hash of a text.
pub record Hdc : Type 0 where
  pub drifted : GraphState → List DriftRow
  pub short_hash : String → String

-- A float64 cut to the range from 0 to 1; a NaN is left.
unfoldable pub unit_range : ℕ → ℕ
unit_range bits =
    let infinity = 0x7FF * 2 ^ 52 in
    let one = 0x3FF * 2 ^ 52 in
    let magnitude = bits % 2 ^ 63 in
    if ltb infinity magnitude
    then bits
    else if ltb (2 ^ 63) bits
    then 0
    else if leb (2 ^ 63) bits
    then bits
    else if ltb one bits
    then one
    else bits

unfoldable pub claim_properties : String → DriftRow → Map Property
unfolding unit_range
claim_properties now row =
    ("text", plain_property (str (String.◌++◌ "type drift detected for " row.urn)) "immutable" "")
    ∷ ("created_at", plain_property (str now) "immutable" "")
    ∷ ("source_ki_urn", plain_property (str "urn:moos:ki:system.hdc-drift") "immutable" "")
    ∷ ("confidence", plain_property (float64 (unit_range row.drift)) "mutable" "kernel")
    ∷ ("subject_urn", plain_property (str row.urn) "immutable" "")
    ∷ ("declared_type", plain_property (str row.declared_type) "immutable" "")
    ∷ ("expressed_type", plain_property (str row.expressed_type) "immutable" "")
    ∷ ("drift_score", plain_property (float64 row.drift) "mutable" "kernel")
    ∷ []

abbrev pub claim_urn : String → Urn
claim_urn hash = String.◌++◌ "urn:moos:claim:type-drift." hash

abbrev pub annotation_urn : String → Urn
annotation_urn hash = String.◌++◌ "urn:moos:rel:type-drift." (String.◌++◌ hash ".annotation")

unfoldable pub add_claim : Urn → String → Urn → DriftRow → Envelope
unfolding claim_properties
add_claim actor now claim row = record no_envelope {
  rewrite_type = add;
  actor = actor;
  node_urn = claim;
  type_id = "claim";
  properties = claim_properties now row;
}

unfoldable pub link_claim : Urn → Urn → Urn → DriftRow → Envelope
link_claim actor claim relation row = record no_envelope {
  rewrite_type = link;
  rewrite_category = "WF15";
  actor = actor;
  relation_urn = relation;
  src_urn = claim;
  src_port = "{semantic}";
  tgt_urn = row.urn;
  tgt_port = "{semantic}";
  contract_urn = "urn:moos:contract:hdc-drift-annotation.v1";
}

module _ {S : Type 0} (host : Host S) (hdc : Hdc) where
  -- The claim, and then its link, each where it is not there yet.
  unfoldable pub annotate : Urn → String → DriftRow → Runtime S → Runtime S
  unfolding add_claim link_claim
  annotate actor now row rt =
      let hash = hdc.short_hash row.urn in
      if is_some (get (claim_urn hash) rt.state.nodes)
      then rt
      else (let claimed = (apply_reactive host rt (add_claim actor now (claim_urn hash) row)).0 in
          if is_some (get (annotation_urn hash) claimed.state.relations)
          then claimed
          else (apply_reactive host claimed
              (link_claim actor (claim_urn hash) (annotation_urn hash) row)).0)

  -- The loop over the drifted rows.
  unfoldable pub annotate_all : Urn → String → List DriftRow → Runtime S → Runtime S
  unfolding annotate
  annotate_all actor now [] rt = rt
  annotate_all actor now (row ∷ rows) rt = annotate_all actor now rows (
      if starts_with row.urn "urn:moos:claim:type-drift." || row.declared_type == "claim"
      then rt
      else annotate actor now row rt)

  -- The rows of a state, for an index that is not nil.
  abbrev pub annotate_rows : Texts → Urn → List DriftRow → Runtime S → Runtime S
  annotate_rows texts actor [] rt = rt
  annotate_rows texts actor (row ∷ rows) rt =
      annotate_all (hdc_actor_urn rt.state actor) (texts.format (host.time_at rt.readings))
        (row ∷ rows) (record rt { readings = suc rt.readings })

-- `runHDCIndexAndDriftLocked`; `none` is a nil index.
unfoldable pub run_hdc_index_and_drift :
    {S : Type 0} → Host S → Texts → Option Hdc → Runtime S → Envelope → Runtime S
unfolding annotate_all
run_hdc_index_and_drift host texts none rt trigger = rt
run_hdc_index_and_drift host texts (some hdc) rt trigger = elim trigger.rewrite_type [
  | other s ↦ rt
  | _ ↦ annotate_rows host hdc texts trigger.actor (hdc.drifted rt.state) rt
]

module _ {S : Type 0} (host : Host S) (texts : Texts) (json : Json) (hdc : Option Hdc)
    (sweep_actor : Urn) where
  -- After the commit: the bump, the broadcast, the reactions and the drift claims.
  abbrev pub finish_reacting :
      Option Urn
      → Runtime S × Result KernelError (EvalResult × PersistedRewrite)
      → Runtime S × Result KernelError EvalResult
  finish_reacting session (rt, ok (r, pr)) = (
    run_hdc_index_and_drift host texts hdc
        (run_reactive host texts json sweep_actor (finish_apply host session (rt, ok (r, pr))).0 pr)
        pr.envelope,
    ok r,
  )
  finish_reacting session (rt, err e) = (rt, err e)

  -- `applyWithOptions`, whole
  unfoldable pub apply_reacting :
      Runtime S → Envelope → Bool → Runtime S × Result KernelError EvalResult
  unfolding admit
  apply_reacting rt env skip_liveness = elim (admit host rt env skip_liveness) [
    | err e ↦ (rt, err e)
    | ok prepared ↦
        finish_reacting (resolved (resolve_session_for_envelope rt.state prepared))
          (commit host rt prepared)
  ]

abbrev pub last : Envelope → List Envelope → Envelope
last env [] = env
last env (next ∷ envs) = last next envs

module _ {S : Type 0} (host : Host S) (texts : Texts) (hdc : Option Hdc) where
  -- `ApplyProgram`, whole: the drift claims follow the last envelope of the batch.
  abbrev pub finish_batch :
      List Envelope
      → Runtime S × Result KernelError (List EvalResult)
      → Runtime S × Result KernelError (List EvalResult)
  finish_batch [] (rt, outcome) = (rt, outcome)
  finish_batch (env ∷ envs) (rt, err e) = (rt, err e)
  finish_batch (env ∷ envs) (rt, ok rs) =
      (run_hdc_index_and_drift host texts hdc rt (last env envs), ok rs)

  unfoldable pub apply_program_annotated :
      Runtime S → List Envelope → Runtime S × Result KernelError (List EvalResult)
  unfolding apply_program
  apply_program_annotated rt envs = finish_batch envs (apply_program host rt envs)
