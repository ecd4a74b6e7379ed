-- ===== src/Kernel/Liveness.antt =====
-- internal/kernel/liveness.go: the gates on the session (M11) and on the administrator (M12).
use moos_kernel.Prelude.{
  ◌≡◌, refl, true, false, not, Option, none, some, ◌==◌, if◌then◌else◌, Result, ok, err, ◌>>◌,
  arith,
}
use moos_kernel.Graph.{Urn, Envelope, GraphState}
use moos_kernel.Graph.Consistent.{IsConsistent}
use moos_kernel.Operad.{Registry}
use moos_kernel.Operad.Occupancy.{check_admin_capability}
use moos_kernel.Operad.Occupancy.Admin.{IsAdmin, check_admin_capability_iff}
use moos_kernel.Operad.Session.{
  Resolution, explicit, inferred, actor_is_session, explicit_mismatch, ambiguous, absent,
  resolve_session_for_envelope, resolved, system_internal_envelope, admin_scope_rewrite,
}
use moos_kernel.Operad.Session.Resolve.{RunsUnder, resolved-RunsUnder}
use moos_kernel.Kernel.{KernelError, session_mismatch, session_ambiguous, session_absent, not_admin}

-- The switch of `checkLivenessM11`.
unfoldable pub admit_session : Urn → Resolution → Result KernelError (Unit {0})
admit_session actor (explicit u) = ok tt
admit_session actor (inferred u) = ok tt
admit_session actor (actor_is_session u) = ok tt
admit_session actor (explicit_mismatch u) = err (session_mismatch u)
admit_session actor (ambiguous us) = err (session_ambiguous actor)
admit_session actor (absent u) = err (session_absent actor)

-- `checkLivenessM11`
unfoldable pub check_liveness_m11 :
    Option Registry → Envelope → GraphState → Result KernelError (Unit {0})
unfolding admit_session
check_liveness_m11 none env state = ok tt
check_liveness_m11 (some r) env state =
    if system_internal_envelope env
    then ok tt
    else admit_session env.actor (resolve_session_for_envelope state env)

-- `checkLivenessM12`
unfoldable pub check_liveness_m12 :
    Option Registry → Envelope → GraphState → Result KernelError (Unit {0})
check_liveness_m12 none env state = ok tt
check_liveness_m12 (some r) env state =
    if system_internal_envelope env
    then ok tt
    else if not (admin_scope_rewrite r env state)
    then ok tt
    else if not (check_admin_capability state env.actor)
    then err (not_admin env.actor)
    else ok tt

-- `checkLiveness`
unfoldable pub check_liveness :
    Option Registry → Envelope → GraphState → Result KernelError (Unit {0})
unfolding check_liveness_m11 check_liveness_m12
check_liveness registry env state = do
  check_liveness_m11 registry env state
  check_liveness_m12 registry env state

admitted_session :
    (actor : Urn) (res : Resolution)
    → admit_session actor res ≡ ok tt
    → (u : Urn) × (resolved res ≡ some u)
unfolding admit_session resolved
admitted_session actor (explicit u) h = (u, refl)
admitted_session actor (inferred u) h = (u, refl)
admitted_session actor (actor_is_session u) h = (u, refl)
admitted_session actor (explicit_mismatch u) h = absurd (ground arith)
admitted_session actor (ambiguous us) h = absurd (ground arith)
admitted_session actor (absent u) h = absurd (ground arith)

-- With a registry, an envelope with a named actor that is none of the system's own passes the two
-- gates on a consistent state only if it runs under a session of that state, and, where it is in the
-- scope of administrators, only if its actor has the superadmin role.
pub check_liveness_admits :
    (r : Registry) (env : Envelope) (s : GraphState)
    → IsConsistent s
    → (env.actor == "") ≡ false
    → system_internal_envelope env ≡ false
    → check_liveness (some r) env s ≡ ok tt
    → ((u : Urn) × RunsUnder s env u) × (admin_scope_rewrite r env s ≡ true → IsAdmin s env.actor)
unfolding check_liveness check_liveness_m11 check_liveness_m12
check_liveness_admits r env s c named outside h =
    let m11 : admit_session env.actor (resolve_session_for_envelope s env) ≡ ok tt = ground arith in
    let (u, e) = admitted_session env.actor (resolve_session_for_envelope s env) m11 in
    (
      (u, resolved-RunsUnder s c env u named e),
      λ scope. (check_admin_capability_iff s c env.actor).0 (ground arith),
    )
