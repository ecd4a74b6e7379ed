-- ===== src/Fold/Atomic.antt =====
-- A batch is all or nothing, and is the sequence of its rewrites.
use mathlib.Core.List.{append-nil, append_assoc}
use moos_kernel.Prelude.{
  ℕ, suc, ◌≡◌, refl, sym, ◌∙◌, ap, subst, inl, inr, ◌⊎◌, ◌↔◌, not, ◌&&◌, List, [], ◌∷◌, ◌++◌,
  nat_eq, length, Result, ok, err, arith, Bool-cases, Result-cases,
}
use moos_kernel.Graph.{Time, Envelope, EvalResult, GraphState}
use moos_kernel.Graph.State.{clone}
use moos_kernel.Graph.Consistent.{IsConsistent}
use moos_kernel.Graph.Copies.{clone-eq}
use moos_kernel.Fold.{FoldError, evaluate_in_place}
use moos_kernel.Fold.Effect.{Effect, evaluate_iff}
use moos_kernel.Fold.Evaluate.{Effect-IsConsistent}
use moos_kernel.Fold.Identity.{Later, Later-refl, Later-trans, Effect-Later}
use moos_kernel.Fold.Program.{
  ProgramError, length_mismatch, at_step, run_steps, settle, stamps, evaluate_program_at,
}

-- The effects of a batch one after the other, with the result of each.
pub data Run (stamp : ℕ → Time)
    : ℕ → GraphState → List Envelope → GraphState → List EvalResult → Type 0 where
  done : {i : ℕ} {s : GraphState} → Run stamp i s [] s []
  step :
      {i : ℕ} {s t v : GraphState} {env : Envelope} {envs : List Envelope} {r : EvalResult}
      {rs : List EvalResult}
      → Effect s env (stamp i) t r
      → Run stamp (suc i) t envs v rs
      → Run stamp i s (env ∷ envs) v (r ∷ rs)

at_step-eq-ok :
    {A : Type 0} (i : ℕ) (env : Envelope) (m : Result FoldError A) (a : A)
    → at_step i env m ≡ ok a
    → m ≡ ok a
at_step-eq-ok i env (ok b) a h = cc
at_step-eq-ok i env (err e) a h = cc

module _ (stamp : ℕ → Time) where
  Run-of_steps :
      (i : ℕ) (s : GraphState) (envs : List Envelope) (acc : List EvalResult) (v : GraphState)
      (out : List EvalResult)
      → run_steps stamp i s envs acc ≡ ok (v, out)
      → (rs : List EvalResult) × Run stamp i s envs v rs × (out ≡ acc ++ rs)
  unfolding run_steps
  Run-of_steps i s [] acc v out h = (
    [],
    subst (λ (x : GraphState). Run stamp i s [] x []) (ground arith) done,
    ground (arith, append-nil acc),
  )
  Run-of_steps i s (env ∷ envs) acc v out h =
      elim (Result-cases (evaluate_in_place s env (stamp i))) [
        | inr (e, failed) ↦ absurd (ground arith)
        | inl ((t, r), succeeded) ↦
            let (rs, run, e) =
              Run-of_steps (suc i) t envs (acc ++ r ∷ []) v out (rw succeeded at h) in
            (
              r ∷ rs,
              step ((evaluate_iff s env (stamp i) t r).0 succeeded) run,
              e ∙ append_assoc acc (r ∷ []) rs,
            )
      ]

  steps-of_Run :
      {i : ℕ} {s : GraphState} {envs : List Envelope} {v : GraphState} {rs : List EvalResult}
      (acc : List EvalResult)
      → Run stamp i s envs v rs
      → run_steps stamp i s envs acc ≡ ok (v, acc ++ rs)
  unfolding run_steps
  steps-of_Run {s = s} acc done = rw append-nil
  steps-of_Run {i} {s} acc (step {t = t} {env = env} {r = r} {rs = rs} effect run) = rw (
    (evaluate_iff s env (stamp i) t r).1 effect,
    steps-of_Run (acc ++ r ∷ []) run,
    append_assoc acc (r ∷ []) rs,
  )

  pub Run-IsConsistent :
      {i : ℕ} {s : GraphState} {envs : List Envelope} {v : GraphState} {rs : List EvalResult}
      → Run stamp i s envs v rs
      → IsConsistent s
      → IsConsistent v
  Run-IsConsistent done c = c
  Run-IsConsistent (step effect run) c = Run-IsConsistent run (Effect-IsConsistent c effect)

  pub Run-Later :
      {i : ℕ} {s : GraphState} {envs : List Envelope} {v : GraphState} {rs : List EvalResult}
      → Run stamp i s envs v rs
      → Later s v
  Run-Later {s = s} done = Later-refl s
  Run-Later {s = s} {v = v} (step {t = t} effect run) =
      Later-trans s t v (Effect-Later effect) (Run-Later run)

length-Run :
    {stamp : ℕ → Time} {i : ℕ} {s : GraphState} {envs : List Envelope} {v : GraphState}
    {rs : List EvalResult}
    → Run stamp i s envs v rs
    → length rs ≡ length envs
length-Run done = refl
length-Run (step effect run) = ap suc (length-Run run)

settle-eq-ok :
    (s : GraphState) (m : Result ProgramError (GraphState × List EvalResult)) (v : GraphState)
    (rs : List EvalResult)
    → settle s m ≡ (v, ok rs)
    → m ≡ ok (v, rs)
settle-eq-ok s (ok (w, qs)) v rs h = ground arith
settle-eq-ok s (err e) v rs h = absurd (ground arith)

module _ (wall : ℕ → Time) (s : GraphState) (envs : List Envelope) (applied_at : List Time)
    (c : IsConsistent s) where
  -- With one timestamp for each rewrite, a batch on a consistent state succeeds with the state and
  -- the results exactly where its rewrites have these effects in turn.
  pub evaluate_program_iff :
      (s' : GraphState) (rs : List EvalResult)
      → length applied_at ≡ length envs
      → (evaluate_program_at wall s envs applied_at ≡ (s', ok rs))
        ↔ Run (stamps wall envs applied_at) 0 s envs s' rs
  unfolding evaluate_program_at
  evaluate_program_iff s' rs lengths =
      let stamp = stamps wall envs applied_at in
      let same : (evaluate_program_at wall s envs applied_at
          ≡ settle s (run_steps stamp 0 (clone s) envs [])) =
        ground arith in
      (
        (λ h.
            let (qs, run, e) =
              Run-of_steps stamp 0 s envs [] s' rs
                (settle-eq-ok s _ s' rs (rw (clone-eq s c) at (sym same ∙ h))) in
            subst (λ (x : List EvalResult). Run stamp 0 s envs s' x) (sym e) run),
        (λ run. same ∙ rw (clone-eq s c, steps-of_Run stamp [] run)),
      )

  -- A batch on a consistent state that fails, for its lengths or at any of its steps, leaves the state
  -- as it was; one that succeeds leaves a consistent state later than the one before, with a result for each rewrite.
  pub evaluate_program_atomic :
      ((e : ProgramError) × (evaluate_program_at wall s envs applied_at ≡ (s, err e)))
      ⊎ ((s' : GraphState) × (rs : List EvalResult) × (evaluate_program_at wall s envs applied_at
            ≡ (s', ok rs))
          × IsConsistent s'
          × Later s s'
          × (length rs ≡ length envs))
  unfolding evaluate_program_at
  evaluate_program_atomic =
      elim (Bool-cases
        (not (nat_eq (length applied_at) 0) && not (nat_eq (length applied_at) (length envs)))) [
          | inl mismatch ↦ inl (length_mismatch (length applied_at) (length envs), rw mismatch)
          | inr match ↦ rw (match, clone-eq s c) (go (Result-cases (run_steps stamp 0 s envs [])))
        ]
    where
      stamp : ℕ → Time
      stamp = stamps wall envs applied_at

      go :
          ((a : GraphState × List EvalResult) × (run_steps stamp 0 s envs [] ≡ ok a))
            ⊎ ((e : ProgramError) × (run_steps stamp 0 s envs [] ≡ err e))
          → ((e : ProgramError) × (settle s (run_steps stamp 0 s envs []) ≡ (s, err e)))
            ⊎ ((s' : GraphState) × (rs : List EvalResult) × (settle s (run_steps stamp 0 s envs [])
                  ≡ (s', ok rs))
                × IsConsistent s'
                × Later s s'
                × (length rs ≡ length envs))
      go (inl ((s', rs), h)) =
          let (qs, run, e) = Run-of_steps stamp 0 s envs [] s' rs h in
          inr (
            s',
            rs,
            rw h,
            Run-IsConsistent stamp run c,
            Run-Later stamp run,
            ap length e ∙ length-Run run,
          )
      go (inr (e, h)) = inl (e, rw h)
