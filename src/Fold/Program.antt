-- ===== src/Fold/Program.antt =====
-- internal/fold/program.go: a batch of rewrites applied as one.
use moos_kernel.Prelude.{
  ℕ, suc, List, [], ◌∷◌, ◌++◌, not, ◌&&◌, nat_eq, if◌then◌else◌, length, get_or, Result, ok, err,
  ◌>>=◌,
}
use moos_kernel.Graph.{Time, RewriteType, Envelope, EvalResult, GraphState}
use moos_kernel.Graph.State.{clone}
use moos_kernel.Fold.{FoldError, evaluate_in_place}

-- The error of a batch: the lengths differ, or a step failed with its position and its cause.
pub data ProgramError : Type 0 where
  length_mismatch : ℕ → ℕ → ProgramError
  step_failed : ℕ → RewriteType → FoldError → ProgramError

-- A step of the loop, with the error wrapped.
abbrev pub at_step : {A : Type 0} → ℕ → Envelope → Result FoldError A → Result ProgramError A
at_step i env (ok a) = ok a
at_step i env (err e) = err (step_failed i env.rewrite_type e)

-- The loop of `EvaluateProgramAt` from step `i`; `stamp i` is the timestamp of step `i`.
unfoldable pub run_steps :
    (ℕ → Time)
    → ℕ
    → GraphState
    → List Envelope
    → List EvalResult
    → Result ProgramError (GraphState × List EvalResult)
run_steps stamp i working [] results = ok (working, results)
run_steps stamp i working (env ∷ envs) results = do
  next ← at_step i env (evaluate_in_place working env (stamp i))
  run_steps stamp (suc i) next.0 envs (results ++ next.1 ∷ [])

abbrev pub settle :
    GraphState
    → Result ProgramError (GraphState × List EvalResult)
    → GraphState × Result ProgramError (List EvalResult)
settle state (ok (working, results)) = (working, ok results)
settle state (err e) = (state, err e)

-- The timestamp of step `i`: the caller's, or the clock's where none came; `wall i` is what the
-- clock says at step `i`.
abbrev pub stamps : (ℕ → Time) → List Envelope → List Time → ℕ → Time
stamps wall envs applied_at i =
    if nat_eq (length applied_at) (length envs) then get_or applied_at i (wall i) else wall i

-- `EvaluateProgramAt`
unfoldable pub evaluate_program_at :
    (ℕ → Time)
    → GraphState
    → List Envelope
    → List Time
    → GraphState × Result ProgramError (List EvalResult)
evaluate_program_at wall state envs applied_at =
    if not (nat_eq (length applied_at) 0) && not (nat_eq (length applied_at) (length envs))
    then (state, err (length_mismatch (length applied_at) (length envs)))
    else settle state (run_steps (stamps wall envs applied_at) 0 (clone state) envs [])

-- `EvaluateProgram`
unfoldable pub evaluate_program :
    (ℕ → Time) → GraphState → List Envelope → GraphState × Result ProgramError (List EvalResult)
unfolding evaluate_program_at
evaluate_program wall state envs = evaluate_program_at wall state envs []
