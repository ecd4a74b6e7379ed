-- ===== src/Kernel/Sweep/Walk.antt =====
-- internal/kernel/runtime.go, `ApplyProgram`: the walk over a batch keeps the marks of its envelopes.
use moos_kernel.Prelude.{
  ℕ, suc, ◌+◌, String, ◌≡◌, sym, subst, inl, inr, Option, List, [], ◌∷◌, All, ok, arith,
  Result-cases,
}
use moos_kernel.Graph.{Urn, Time, Value, Envelope, GraphState}
use moos_kernel.Fold.{evaluate_at}
use moos_kernel.Operad.{Registry}
use moos_kernel.Kernel.Commit.{inject_property_spec}
use moos_kernel.Kernel.Program.{fold_result, inject_batch, walk_batch}
use moos_kernel.Kernel.Sweep.Batch.{IsStaging, Marks, HasMark}

-- The injection touches the specification only.
inject_batch-IsStaging :
    (registry : Option Registry) (env : Envelope) (s : GraphState)
    → IsStaging env
    → IsStaging (inject_batch registry env s)
unfolding inject_batch inject_property_spec
inject_batch-IsStaging registry env s h k = ground (arith, h)

inject_batch-Marks :
    (registry : Option Registry) (env : Envelope) (s : GraphState) (u : Urn)
    → Marks u env
    → Marks u (inject_batch registry env s)
unfolding inject_batch inject_property_spec
inject_batch-Marks registry env s u m = record {
  kind = ground (arith, m.kind);
  target = ground (arith, m.target);
  field = ground (arith, m.field);
  value = ground (arith, m.value);
}

module _ (print_value : Value → String) (registry : Option Registry) (base : Time) where
  -- A walk that succeeds admits the first envelope and walks on.
  walk_batch-cons :
      (i : ℕ) (working : GraphState) (env : Envelope) (envs injected : List Envelope)
      → walk_batch print_value registry base i working (env ∷ envs) ≡ ok injected
      → (next : GraphState) × (rest : List Envelope) × (walk_batch print_value registry base
            (suc i)
            next
            envs
          ≡ ok rest)
        × (injected ≡ inject_batch registry env working ∷ rest)
  unfolding walk_batch
  walk_batch-cons i working env envs injected h =
      elim (Result-cases
        (fold_result (evaluate_at working (inject_batch registry env working) (base + i)))) [
          | inr (e, failed) ↦ absurd (ground arith)
          | inl (next, folded) ↦
              elim (Result-cases (walk_batch print_value registry base (suc i) next envs)) [
                | inr (e, failed) ↦ absurd (ground arith)
                | inl (rest, walked) ↦ (next, rest, walked, ground arith)
              ]
        ]

  pub walk_batch-IsStaging :
      (i : ℕ) (working : GraphState) (envs injected : List Envelope)
      → walk_batch print_value registry base i working envs ≡ ok injected
      → All IsStaging envs
      → All IsStaging injected
  unfolding walk_batch
  walk_batch-IsStaging i working [] injected h all =
      let e : [] ≡ injected = ground arith in subst (All IsStaging) e tt
  walk_batch-IsStaging i working (env ∷ envs) injected h all =
      let (next, rest, walked, e) = walk_batch-cons i working env envs injected h in
      subst (All IsStaging) (sym e) (
        inject_batch-IsStaging registry env working all.0,
        walk_batch-IsStaging (suc i) next envs rest walked all.1,
      )

  -- What is admitted has the marks of what was handed in.
  pub walk_batch-HasMark :
      (i : ℕ) (working : GraphState) (envs injected : List Envelope) (u : Urn)
      → walk_batch print_value registry base i working envs ≡ ok injected
      → HasMark u envs
      → HasMark u injected
  walk_batch-HasMark i working [] injected u h m = absurd m
  walk_batch-HasMark i working (env ∷ envs) injected u h (inl m) =
      let (next, rest, walked, e) = walk_batch-cons i working env envs injected h in
      subst (HasMark u) (sym e) (inl (inject_batch-Marks registry env working u m))
  walk_batch-HasMark i working (env ∷ envs) injected u h (inr m) =
      let (next, rest, walked, e) = walk_batch-cons i working env envs injected h in
      subst (HasMark u) (sym e) (inr (walk_batch-HasMark (suc i) next envs rest u walked m))
