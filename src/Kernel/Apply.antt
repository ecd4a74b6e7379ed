-- ===== src/Kernel/Apply.antt =====
-- internal/kernel/runtime.go: the writers of one rewrite, `Apply`, `SeedIfAbsent`, the bump of a
-- session's local time and the kernel's own emissions.
use text.Mathlib.Text.{starts_with}
use Prim.Native.String.{len, slice}
use moos_kernel.Prelude.{
  sort_strings, ◌+◌, ◌-◌, ◌%◌, ◌^◌, Bool, true, false, not, ◌&&◌, Option, none, some, List, [], ◌∷◌,
  ◌==◌, leb, if◌then◌else◌, get, keys_where, Result, ok, err, ◌>>=◌, ◌>>◌,
}
use moos_kernel.Graph.{
  Urn, Int64, link, mutate, int, int64, float64, Node, Envelope, no_envelope, EvalResult,
  PersistedRewrite, GraphState,
}
use moos_kernel.Graph.Numbers.{float_to_int64}
use moos_kernel.Fold.{node_exists, relation_exists}
use moos_kernel.Operad.{Registry, same_type}
use moos_kernel.Operad.Validate.{Check, validate_mutate}
use moos_kernel.Operad.Strata.{validate_strata_link}
use moos_kernel.Operad.Causal.{validate_causal_acyclic}
use moos_kernel.Operad.Session.{resolve_session_for_envelope, resolved}
use moos_kernel.Kernel.{Host, Runtime, KernelError, operad, fold}
use moos_kernel.Kernel.Gates.{check_gates}
use moos_kernel.Kernel.Liveness.{check_liveness}
use moos_kernel.Kernel.Commit.{validate, inject_property_spec, broadcast, commit}

abbrev pub as_kernel : Check → Result KernelError (Unit {0})
as_kernel (ok u) = ok tt
as_kernel (err e) = err (operad e)

-- The block for a MUTATE: the check against the node, then the injection.
unfoldable pub prepare_mutate :
    Option Registry → Envelope → GraphState → Result KernelError Envelope
prepare_mutate none env state = ok env
prepare_mutate (some r) env state =
    if not (same_type env.rewrite_type mutate)
    then ok env
    else elim (get env.target_urn state.nodes) [
      | none ↦ ok env
      | some node ↦ do
        as_kernel (validate_mutate r env node)
        ok (inject_property_spec (some r) env node)
    ]

-- The block for a LINK: strata, then causes.
unfoldable pub check_link : Option Registry → Envelope → GraphState → Result KernelError (Unit {0})
check_link none env state = ok tt
check_link (some r) env state = if not (same_type env.rewrite_type link) then ok tt else do
  as_kernel (validate_strata_link r env state)
  as_kernel (validate_causal_acyclic env state)

-- The value of `local_t`.
unfoldable pub local_time : Node → Int64
unfolding float_to_int64
local_time node = elim (get "local_t" node.properties) [
  | none ↦ 0
  | some p ↦ elim p.value [ float64 bits ↦ float_to_int64 bits | int64 n ↦ n | int n ↦ n | _ ↦ 0 ]
]

-- `strings.HasSuffix(urn, ".primary")`
abbrev pub is_primary : Urn → Bool
is_primary urn = leb 8 (len urn) && slice urn (len urn - 8) (len urn) == ".primary"

unfoldable pub first_primary : List Urn → Urn → Urn
first_primary [] default = default
first_primary (u ∷ us) default = if is_primary u then u else first_primary us default

-- The choice among the sorted kernels.
unfoldable pub choose_kernel : List Urn → Urn → Urn
unfolding first_primary
choose_kernel [] default = default
choose_kernel (u ∷ us) default = first_primary (u ∷ us) u

-- `hdcActorURN`
unfoldable pub hdc_actor_urn : GraphState → Urn → Urn
unfolding sort_strings choose_kernel
hdc_actor_urn state default =
    if starts_with default "urn:moos:kernel:"
    then default
    else choose_kernel (sort_strings (keys_where (λ n. n.type_id == "kernel") state.nodes)) default

-- The MUTATE of `bumpSessionLocalT`.
unfoldable pub bump_envelope : GraphState → Urn → Node → Envelope
unfolding local_time hdc_actor_urn
bump_envelope state session node = record no_envelope {
  rewrite_type = mutate;
  actor = hdc_actor_urn state session;
  rewrite_category = "WF19";
  target_urn = session;
  field = "local_t";
  new_value = int64 ((local_time node + 1) % 2 ^ 64);
}

module _ {S : Type 0} (host : Host S) where
  -- What a writer that reports no error does after its commit.
  abbrev pub settle_quietly :
      Runtime S × Result KernelError (EvalResult × PersistedRewrite) → Runtime S × Bool
  settle_quietly (rt, ok (r, pr)) = (broadcast host rt pr, true)
  settle_quietly (rt, err e) = (rt, false)

  -- `bumpSessionLocalT`
  unfoldable pub bump_session_local_t : Runtime S → Urn → Runtime S
  unfolding bump_envelope
  bump_session_local_t rt session = elim (get session rt.state.nodes) [
    | none ↦ rt
    | some node ↦
        if not (node.type_id == "session")
        then rt
        else (settle_quietly (
            commit host rt
              (inject_property_spec rt.registry (bump_envelope rt.state session node) node))).0
  ]

  unfoldable pub bump_resolved : Runtime S → Option Urn → Runtime S
  unfolding bump_session_local_t
  bump_resolved rt none = rt
  bump_resolved rt (some session) = bump_session_local_t rt session

  -- What `applyWithOptions` checks, in its order; the envelope with its injected specification.
  unfoldable pub admit : Runtime S → Envelope → Bool → Result KernelError Envelope
  unfolding prepare_mutate check_link
  admit rt env skip_liveness = do
    if skip_liveness then ok tt else check_liveness rt.registry env rt.state
    validate rt.registry env
    prepared ← prepare_mutate rt.registry env rt.state
    check_link rt.registry prepared rt.state
    check_gates host.print_value prepared rt.state
    ok prepared

  -- After the commit: the bump of the session found before it, then the broadcast.
  abbrev pub finish_apply :
      Option Urn
      → Runtime S × Result KernelError (EvalResult × PersistedRewrite)
      → Runtime S × Result KernelError EvalResult
  finish_apply session (rt, ok (r, pr)) = (broadcast host (bump_resolved rt session) pr, ok r)
  finish_apply session (rt, err e) = (rt, err e)

  -- `applyWithOptions` up to the reactions to the rewrite, which are rewrites of their own.
  unfoldable pub apply_with_options :
      Runtime S → Envelope → Bool → Runtime S × Result KernelError EvalResult
  unfolding admit
  apply_with_options rt env skip_liveness = elim (admit rt env skip_liveness) [
    | err e ↦ (rt, err e)
    | ok prepared ↦
        finish_apply (resolved (resolve_session_for_envelope rt.state prepared))
          (commit host rt prepared)
  ]

  abbrev pub absorb : Result KernelError EvalResult → Option KernelError
  absorb (ok r) = none
  absorb (err (fold (node_exists u))) = none
  absorb (err (fold (relation_exists u))) = none
  absorb (err e) = some e

  -- `SeedIfAbsent`
  unfoldable pub seed_if_absent : Runtime S → Envelope → Runtime S × Option KernelError
  unfolding apply_with_options
  seed_if_absent rt env =
      let (next, outcome) = apply_with_options rt env true in (next, absorb outcome)

  -- `applyStagedLocked`
  unfoldable pub apply_staged : Runtime S → Envelope → Runtime S × Bool
  apply_staged rt env = elim (validate rt.registry env) [
    | err e ↦ (rt, false)
    | ok u ↦ settle_quietly (commit host rt env)
  ]

  -- The check of `applyReactiveLocked` on a MUTATE.
  unfoldable pub check_reactive :
      Option Registry → Envelope → GraphState → Result KernelError (Unit {0})
  check_reactive none env state = ok tt
  check_reactive (some r) env state =
      if not (same_type env.rewrite_type mutate)
      then ok tt
      else elim (get env.target_urn state.nodes) [
        | none ↦ ok tt
        | some node ↦ as_kernel (validate_mutate r env node)
      ]

  -- `applyReactiveLocked`
  unfoldable pub apply_reactive : Runtime S → Envelope → Runtime S × Bool
  unfolding check_reactive
  apply_reactive rt env =
      elim (validate rt.registry env >> check_reactive rt.registry env rt.state) [
        | err e ↦ (rt, false)
        | ok u ↦ settle_quietly (commit host rt env)
      ]
