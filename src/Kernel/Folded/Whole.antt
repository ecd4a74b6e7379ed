-- ===== src/Kernel/Folded/Whole.antt =====
-- internal/kernel/runtime.go: `Apply` and `ApplyProgram` with the reactions and the drift claims.
use mathlib.Core.List.{append_assoc}
use moos_kernel.Prelude.{
  suc, String, ◌≡◌, refl, sym, ◌∙◌, ap, subst, inl, inr, Bool, true, false, ◌||◌, Option, none,
  some, List, [], ◌∷◌, ◌++◌, ◌==◌, if◌then◌else◌, get, is_some, Result, ok, err,
}
use text.Mathlib.Text.{starts_with}
use moos_kernel.Graph.{
  Urn, RewriteType, add, link, mutate, unlink, other, Envelope, EvalResult, PersistedRewrite,
}
use moos_kernel.Fold.Identity.{Later-trans}
use moos_kernel.Operad.Session.{resolve_session_for_envelope, resolved}
use moos_kernel.Reactive.Engine.{Json, evaluate_detailed}
use moos_kernel.Kernel.{Host, Runtime, KernelError}
use moos_kernel.Kernel.Commit.{commit}
use moos_kernel.Kernel.Apply.{admit, finish_apply, hdc_actor_urn, apply_reactive}
use moos_kernel.Kernel.Program.{apply_program}
use moos_kernel.Kernel.Staging.{Texts}
use moos_kernel.Kernel.Reactions.{run_reactive}
use moos_kernel.Kernel.Drift.{
  DriftRow, Hdc, claim_urn, annotation_urn, add_claim, link_claim, annotate, annotate_all,
  annotate_rows, run_hdc_index_and_drift, finish_reacting, apply_reacting, last, finish_batch,
  apply_program_annotated,
}
use moos_kernel.Kernel.Folded.{IsStore, IsFolded, Committed, commit-Committed}
use moos_kernel.Kernel.Folded.Writers.{
  Grown, Grown-refl, Grown-trans, emissions-Grown, Applied, finish_apply-Applied,
}
use moos_kernel.Kernel.Folded.Batches.{AppliedBatch, apply_program-Applied}
use moos_kernel.Kernel.Folded.Reacting.{Grown-read, route_firings-Grown}

module _ {S : Type 0} (host : Host S) (laws : IsStore host.store) where
  module _ (hdc : Hdc) where
    annotate-Grown :
        (actor : Urn) (now : String) (row : DriftRow) (rt : Runtime S)
        → IsFolded host rt
        → Grown host rt (annotate host hdc actor now row rt)
    unfolding annotate
    annotate-Grown actor now row rt i =
        go (is_some (get (claim_urn hash) rt.state.nodes))
          (is_some (get (annotation_urn hash) claimed.state.relations))
      where
        hash : String
        hash = hdc.short_hash row.urn

        claimed : Runtime S
        claimed = (apply_reactive host rt (add_claim actor now (claim_urn hash) row)).0

        linked : Runtime S
        linked =
            (apply_reactive host claimed
              (link_claim actor (claim_urn hash) (annotation_urn hash) row)).0

        first : Grown host rt claimed
        first = (emissions-Grown host laws rt (add_claim actor now (claim_urn hash) row) i).0

        go : (a b : Bool) → Grown host rt (if a then rt else (if b then claimed else linked))
        go true b = Grown-refl host laws rt i
        go false true = first
        go false false =
            Grown-trans host laws rt claimed linked first
              (emissions-Grown host laws claimed
                (link_claim actor (claim_urn hash) (annotation_urn hash) row) first.is_folded).0

    annotate_all-Grown :
        (actor : Urn) (now : String) (rows : List DriftRow) (rt : Runtime S)
        → IsFolded host rt
        → Grown host rt (annotate_all host hdc actor now rows rt)
    unfolding annotate_all
    annotate_all-Grown actor now [] rt i = Grown-refl host laws rt i
    annotate_all-Grown actor now (row ∷ rows) rt i =
        Grown-trans host laws rt next (annotate_all host hdc actor now rows next) one
          (annotate_all-Grown actor now rows next one.is_folded)
      where
        passed : Bool
        passed = starts_with row.urn "urn:moos:claim:type-drift." || row.declared_type == "claim"

        next : Runtime S
        next = if passed then rt else annotate host hdc actor now row rt

        either : (b : Bool) → Grown host rt (if b then rt else annotate host hdc actor now row rt)
        either true = Grown-refl host laws rt i
        either false = annotate-Grown actor now row rt i

        one : Grown host rt next
        one = either passed

    annotate_rows-Grown :
        (texts : Texts) (actor : Urn) (rows : List DriftRow) (rt : Runtime S)
        → IsFolded host rt
        → Grown host rt (annotate_rows host hdc texts actor rows rt)
    annotate_rows-Grown texts actor [] rt i = Grown-refl host laws rt i
    annotate_rows-Grown texts actor (row ∷ rows) rt i =
        let read : Runtime S = record rt { readings = suc rt.readings } in
        let same : Grown host rt read = Grown-read host laws rt (suc rt.readings) i in
        Grown-trans host laws rt read
          (annotate_all host hdc (hdc_actor_urn rt.state actor)
            (texts.format (host.time_at rt.readings)) (row ∷ rows) read)
          same
          (annotate_all-Grown (hdc_actor_urn rt.state actor)
            (texts.format (host.time_at rt.readings)) (row ∷ rows) read same.is_folded)

  drift-Grown :
      (texts : Texts) (hdc : Option Hdc) (rt : Runtime S) (trigger : Envelope)
      → IsFolded host rt
      → Grown host rt (run_hdc_index_and_drift host texts hdc rt trigger)
  unfolding run_hdc_index_and_drift
  drift-Grown texts none rt trigger i = Grown-refl host laws rt i
  drift-Grown texts (some hdc) rt trigger i = go trigger.rewrite_type
    where
      claims : Runtime S
      claims = annotate_rows host hdc texts trigger.actor (hdc.drifted rt.state) rt

      grown : Grown host rt claims
      grown = annotate_rows-Grown hdc texts trigger.actor (hdc.drifted rt.state) rt i

      go :
          (k : RewriteType)
          → Grown host rt (elim k as (λ _. Runtime S) [ other s ↦ rt | _ ↦ claims ])
      go (other s) = Grown-refl host laws rt i
      go add = grown
      go link = grown
      go mutate = grown
      go unlink = grown

  -- What has been applied stays applied while the kernel adds rewrites of its own.
  Applied-Grown :
      (rt : Runtime S) (env : Envelope) (skip : Bool) (rt' rt'' : Runtime S) (r : EvalResult)
      → Applied host laws rt env skip (rt', ok r)
      → Grown host rt' rt''
      → Applied host laws rt env skip (rt'', ok r)
  Applied-Grown rt env skip rt' rt'' r (prepared, pr, more, admitted, same, log, later, i) g = (
    prepared,
    pr,
    more ++ g.more,
    admitted,
    same,
    g.grows ∙ ap (λ l. l ++ g.more) log ∙ append_assoc rt.log (pr ∷ more) g.more,
    Later-trans rt.state rt'.state rt''.state later g.later,
    g.is_folded,
  )

  module _ (texts : Texts) (json : Json) (hdc : Option Hdc) (sweep_actor : Urn) where
    finish_reacting-Applied :
        (rt : Runtime S) (env prepared : Envelope) (skip : Bool) (session : Option Urn)
        (q : Runtime S × Result KernelError (EvalResult × PersistedRewrite))
        → admit host rt env skip ≡ ok prepared
        → Committed host rt prepared q
        → Applied host laws rt env skip (finish_reacting host texts json hdc sweep_actor session q)
    unfolding run_reactive
    finish_reacting-Applied rt env prepared skip session (rt', err e) h c = c
    finish_reacting-Applied rt env prepared skip session (rt', ok (r, pr)) h c =
        let settled = (finish_apply host session (rt', ok (r, pr))).0 in
        let applied : Applied host laws rt env skip (settled, ok r) =
          finish_apply-Applied host laws rt env prepared skip session (rt', ok (r, pr)) h c in
        let reacted = run_reactive host texts json sweep_actor settled pr in
        let reacting : Grown host settled reacted =
          route_firings-Grown host laws texts sweep_actor pr
            (evaluate_detailed host.print_value json settled.state pr) settled 0
            (folded_of applied) in
        Applied-Grown rt env skip reacted
          (run_hdc_index_and_drift host texts hdc reacted pr.envelope) r
          (Applied-Grown rt env skip settled reacted r applied reacting)
          (drift-Grown texts hdc reacted pr.envelope reacting.is_folded)
      where
        folded_of :
            {rt'' : Runtime S} → Applied host laws rt env skip (rt'', ok r) → IsFolded host rt''
        folded_of (prepared, pr, more, admitted, same, log, later, i) = i

    -- The whole of `Apply`, with the reactions to the rewrite and the claims on drift, from a runtime
    -- whose state is the fold of its log and whose store holds the log: a refusal, by a check, by the
    -- fold or by the store, leaves state and log as they were; a success has passed every check, logs
    -- the admitted envelope first and then only what the kernel adds, and ends in a later state. Either
    -- way the state is still the fold of the log, and the store still holds it.
    pub apply_reacting-Applied :
        (rt : Runtime S) (env : Envelope) (skip : Bool)
        → IsFolded host rt
        → Applied host laws rt env skip (apply_reacting host texts json hdc sweep_actor rt env skip)
    unfolding apply_reacting
    apply_reacting-Applied rt env skip i = go (admit host rt env skip) refl
      where
        go :
            (q : Result KernelError Envelope)
            → admit host rt env skip ≡ q
            → Applied host laws rt env skip (elim q [
              | err e ↦ (rt, err e)
              | ok prepared ↦
                  finish_reacting host texts json hdc sweep_actor
                    (resolved (resolve_session_for_envelope rt.state prepared))
                    (commit host rt prepared)
            ])
        go (err e) h = (i, refl, refl)
        go (ok prepared) h =
            finish_reacting-Applied rt env prepared skip
              (resolved (resolve_session_for_envelope rt.state prepared)) (commit host rt prepared)
              h (commit-Committed host laws rt prepared i)

  -- What `ApplyProgram` leaves on each outcome.
  abbrev pub Outcome : Runtime S → Runtime S × Result KernelError (List EvalResult) → Type 0
  Outcome rt (rt', err e) = IsFolded host rt' × (rt'.state ≡ rt.state) × (rt'.log ≡ rt.log)
  Outcome rt (rt', ok rs) = IsFolded host rt'

  pub apply_program-Outcome :
      (rt : Runtime S) (envs : List Envelope)
      → IsFolded host rt
      → Outcome rt (apply_program host rt envs)
  apply_program-Outcome rt envs i = elim (apply_program-Applied host laws rt envs i) [
    | inl (e, h, failed) ↦ subst (Outcome rt) (sym failed) (i, refl, refl)
    | inr (injected, h, applied) ↦ go (apply_program host rt envs) injected applied
  ]
    where
      go :
          (q : Runtime S × Result KernelError (List EvalResult)) (injected : List Envelope)
          → AppliedBatch host laws rt (host.time_at rt.readings) injected q
          → Outcome rt q
      go (rt', err e) injected a = a
      go (rt', ok rs) injected (more, grows, lengths, later, folded) = folded

  module _ (texts : Texts) (hdc : Option Hdc) where
    finish_batch-Outcome :
        (rt : Runtime S) (envs : List Envelope)
        (q : Runtime S × Result KernelError (List EvalResult))
        → Outcome rt q
        → Outcome rt (finish_batch host texts hdc envs q)
    finish_batch-Outcome rt [] q o = o
    finish_batch-Outcome rt (env ∷ envs) (rt', err e) o = o
    finish_batch-Outcome rt (env ∷ envs) (rt', ok rs) o =
        (drift-Grown texts hdc rt' (last env envs) o).is_folded

    pub annotated-Outcome :
        (rt : Runtime S) (envs : List Envelope)
        → IsFolded host rt
        → Outcome rt (apply_program_annotated host texts hdc rt envs)
    unfolding apply_program_annotated
    annotated-Outcome rt envs i =
        finish_batch-Outcome rt envs (apply_program host rt envs) (apply_program-Outcome rt envs i)
