-- ===== src/Kernel/Sweep/Claims.antt =====
-- internal/kernel/runtime.go, `runHDCIndexAndDriftLocked`: the drift claims leave a marked hook marked.
use moos_kernel.Prelude.{
  suc, String, Bool, true, false, ◌||◌, Option, none, some, List, [], ◌∷◌, ◌==◌, if◌then◌else◌, get,
  is_some, Result, ok, err, ◌>>◌, arith,
}
use text.Mathlib.Text.{starts_with}
use moos_kernel.Graph.{Urn, RewriteType, add, link, mutate, unlink, other, Envelope}
use moos_kernel.Kernel.{Host, Runtime, KernelError}
use moos_kernel.Kernel.Commit.{validate, commit}
use moos_kernel.Kernel.Apply.{settle_quietly, check_reactive, apply_reactive, hdc_actor_urn}
use moos_kernel.Kernel.Staging.{Texts}
use moos_kernel.Kernel.Drift.{
  DriftRow, Hdc, claim_urn, annotation_urn, add_claim, link_claim, annotate, annotate_all,
  annotate_rows, run_hdc_index_and_drift,
}
use moos_kernel.Kernel.Folded.{IsStore, IsFolded, commit-Committed}
use moos_kernel.Kernel.Folded.Writers.{emissions-Grown}
use moos_kernel.Kernel.Says.{Spares}
use moos_kernel.Kernel.Sweep.Batch.{IsProposed}
use moos_kernel.Kernel.Sweep.Landing.{settled-IsProposed}

module _ {S : Type 0} (host : Host S) (laws : IsStore host.store) (u : Urn) where
  -- The second runtime is folded, and has the hook marked.
  abbrev pub Marked : Runtime S → Type 0
  Marked rt = IsFolded host rt × IsProposed rt.state u

  reactive-Marked :
      (rt : Runtime S) (env : Envelope)
      → Spares u "firing_state" "proposed" env
      → Marked rt
      → Marked (apply_reactive host rt env).0
  unfolding apply_reactive
  reactive-Marked rt env spare (i, p) = (
    unfold apply_reactive in (emissions-Grown host laws rt env i).0.is_folded,
    go (validate rt.registry env >> check_reactive host rt.registry env rt.state),
  )
    where
      go :
          (q : Result KernelError (Unit {0}))
          → IsProposed
              (elim q as (λ _. Runtime S × Bool) [
                | err e ↦ (rt, false)
                | ok k ↦ settle_quietly host (commit host rt env)
              ]).0.state
              u
      go (err e) = p
      go (ok k) =
          settled-IsProposed host laws u rt env (commit host rt env) spare
            (commit-Committed host laws rt env i) p

  module _ (hdc : Hdc) where
    annotate-Marked :
        (actor : Urn) (now : String) (row : DriftRow) (rt : Runtime S)
        → Marked rt
        → Marked (annotate host hdc actor now row rt)
    unfolding annotate add_claim link_claim
    annotate-Marked actor now row rt m =
        go (is_some (get (claim_urn hash) rt.state.nodes))
          (is_some (get (annotation_urn hash) claimed.state.relations))
      where
        hash : String
        hash = hdc.short_hash row.urn

        claimed : Runtime S
        claimed = (apply_reactive host rt (add_claim actor now (claim_urn hash) row)).0

        linked : Runtime S
        linked =
            (apply_reactive host claimed
              (link_claim actor (claim_urn hash) (annotation_urn hash) row)).0

        first : Marked claimed
        first =
            reactive-Marked rt (add_claim actor now (claim_urn hash) row)
              (λ k t f. absurd (ground arith)) m

        go : (a b : Bool) → Marked (if a then rt else (if b then claimed else linked))
        go true b = m
        go false true = first
        go false false =
            reactive-Marked claimed (link_claim actor (claim_urn hash) (annotation_urn hash) row)
              (λ k t f. absurd (ground arith)) first

    annotate_all-Marked :
        (actor : Urn) (now : String) (rows : List DriftRow) (rt : Runtime S)
        → Marked rt
        → Marked (annotate_all host hdc actor now rows rt)
    unfolding annotate_all
    annotate_all-Marked actor now [] rt m = m
    annotate_all-Marked actor now (row ∷ rows) rt m =
        annotate_all-Marked actor now rows _ (
          either (starts_with row.urn "urn:moos:claim:type-drift." || row.declared_type == "claim"))
      where
        either : (b : Bool) → Marked (if b then rt else annotate host hdc actor now row rt)
        either true = m
        either false = annotate-Marked actor now row rt m

    annotate_rows-Marked :
        (texts : Texts) (actor : Urn) (rows : List DriftRow) (rt : Runtime S)
        → Marked rt
        → Marked (annotate_rows host hdc texts actor rows rt)
    annotate_rows-Marked texts actor [] rt m = m
    annotate_rows-Marked texts actor (row ∷ rows) rt (i, p) =
        annotate_all-Marked (hdc_actor_urn rt.state actor) (texts.format (host.time_at rt.readings))
          (row ∷ rows) (record rt { readings = suc rt.readings })
          (record { folded = i.folded; durable = i.durable }, p)

  pub drift-Marked :
      (texts : Texts) (hdc : Option Hdc) (rt : Runtime S) (trigger : Envelope)
      → Marked rt
      → Marked (run_hdc_index_and_drift host texts hdc rt trigger)
  unfolding run_hdc_index_and_drift
  drift-Marked texts none rt trigger m = m
  drift-Marked texts (some hdc) rt trigger m = go trigger.rewrite_type
    where
      claims : Runtime S
      claims = annotate_rows host hdc texts trigger.actor (hdc.drifted rt.state) rt

      marked : Marked claims
      marked = annotate_rows-Marked hdc texts trigger.actor (hdc.drifted rt.state) rt m

      go : (k : RewriteType) → Marked (elim k as (λ _. Runtime S) [ other s ↦ rt | _ ↦ claims ])
      go (other s) = m
      go add = marked
      go link = marked
      go mutate = marked
      go unlink = marked
