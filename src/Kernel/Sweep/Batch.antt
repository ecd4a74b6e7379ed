-- ===== src/Kernel/Sweep/Batch.antt =====
-- internal/kernel/sweep.go: the batch of a sweep marks each hook that is due, and a batch that goes
-- through leaves these hooks marked.
use moos_kernel.Prelude.{
  ℕ, ◌+◌, ◌%◌, ◌^◌, String, ◌≡◌, refl, sym, subst, inl, inr, ◌⊎◌, Bool, true, false, some, List, [],
  ◌∷◌, ◌==◌, holds, get, eq_iff, contains, All, arith, Bool-cases, Option-cases,
}
use moos_kernel.Graph.{Urn, Time, Int64, mutate, Value, str, Node, Envelope, EvalResult, GraphState}
use moos_kernel.Graph.State.{nodes_of_type}
use moos_kernel.Fold.Atomic.{Run, done, step}
use moos_kernel.Kernel.Says.{Says, Effect-Says, Effect-keeps}
use moos_kernel.Kernel.Staging.{Texts, stage_hook_proposal_pair}
use moos_kernel.Kernel.Sweep.{is_due, hook_pair, sweep_hooks, sweep_once}

-- A MUTATE of the batch writes nothing but `proposed`.
abbrev pub IsStaging : Envelope → Type 0
IsStaging env = env.rewrite_type ≡ mutate → env.new_value ≡ str "proposed"

-- The envelope marks the hook `u`.
pub record Marks (u : Urn) (env : Envelope) : Type 0 where
  pub kind : env.rewrite_type ≡ mutate
  pub target : env.target_urn ≡ u
  pub field : env.field ≡ "firing_state"
  pub value : env.new_value ≡ str "proposed"

abbrev pub HasMark : Urn → List Envelope → Type 0
HasMark u [] = ⊥
HasMark u (env ∷ envs) = Marks u env ⊎ HasMark u envs

abbrev pub IsProposed : GraphState → Urn → Type 0
IsProposed s u = Says s u "firing_state" "proposed"

module _ (stamp : ℕ → Time) (u : Urn) where
  -- A batch of such envelopes keeps a marked hook marked, and marks the hook that it has a mark for.
  pub Run-IsProposed :
      {i : ℕ} {s : GraphState} {envs : List Envelope} {v : GraphState} {rs : List EvalResult}
      → Run stamp i s envs v rs
      → All IsStaging envs
      → IsProposed s u ⊎ HasMark u envs
      → IsProposed v u
  Run-IsProposed done all (inl there) = there
  Run-IsProposed done all (inr h) = absurd h
  Run-IsProposed {i} {s} (step {t = t} {env = env} {r = r} effect run) all (inl there) =
      Run-IsProposed run all.1 (
        inl (
          Effect-keeps s env (stamp i) t r u "firing_state" "proposed" (λ k a b. all.0 k) effect
            there))
  Run-IsProposed {i} {s} (step {t = t} {env = env} {r = r} effect run) all (inr (inl m)) =
      Run-IsProposed run all.1 (inl (marked m))
    where
      marked : Marks u env → IsProposed t u
      marked m =
          subst (λ (w : Urn). IsProposed t w) m.target
            (subst (λ (f : String). Says t env.target_urn f "proposed") m.field
              (Effect-Says s env "proposed" m.value (stamp i) t r m.kind effect))
  Run-IsProposed (step effect run) all (inr (inr m)) = Run-IsProposed run all.1 (inr m)

module _ (print_value : Value → String) (texts : Texts) (state : GraphState) (current_t : Int64)
    (actor : Urn) (base_seq : Int64) (now : Time) where
  abbrev pub hooks_from : Int64 → List Urn → List Envelope
  hooks_from = sweep_hooks print_value texts state current_t actor base_seq now

  abbrev pub pair_at : Int64 → Node → Envelope × Envelope
  pair_at = hook_pair texts current_t actor base_seq now

  pub pair-IsStaging :
      (n : Int64) (hook : Node) → IsStaging (pair_at n hook).0 × IsStaging (pair_at n hook).1
  unfolding hook_pair stage_hook_proposal_pair
  pair-IsStaging n hook = ((λ k. absurd (ground arith)), (λ k. refl))

  pub pair-Marks : (n : Int64) (hook : Node) → Marks hook.urn (pair_at n hook).1
  unfolding hook_pair stage_hook_proposal_pair
  pair-Marks n hook = record { kind = refl; target = refl; field = refl; value = refl }

  abbrev pub due_at : Urn → Bool
  due_at u = holds (is_due print_value state current_t) (get u state.nodes)

  pub sweep_hooks-skip :
      (n : Int64) (u : Urn) (us : List Urn)
      → due_at u ≡ false
      → hooks_from n (u ∷ us) ≡ hooks_from n us
  unfolding sweep_hooks
  sweep_hooks-skip n u us h = ground arith

  pub sweep_hooks-take :
      (n : Int64) (u : Urn) (us : List Urn) (hook : Node)
      → get u state.nodes ≡ some hook
      → is_due print_value state current_t hook ≡ true
      → hooks_from n (u ∷ us)
        ≡ (pair_at ((n + 1) % 2 ^ 64) hook).0
          ∷ (pair_at ((n + 1) % 2 ^ 64) hook).1
          ∷ hooks_from ((n + 2) % 2 ^ 64) us
  unfolding sweep_hooks
  sweep_hooks-take n u us hook e due = ground arith

  -- A hook that the loop meets is passed over, or its pair comes first.
  pub sweep_hooks-cons :
      (P : List Envelope → Type 0) (n : Int64) (u : Urn) (us : List Urn)
      → (due_at u ≡ false → P (hooks_from n us))
      → ((hook : Node)
          → get u state.nodes ≡ some hook
          → is_due print_value state current_t hook ≡ true
          → P (
              (pair_at ((n + 1) % 2 ^ 64) hook).0
              ∷ (pair_at ((n + 1) % 2 ^ 64) hook).1
              ∷ hooks_from ((n + 2) % 2 ^ 64) us))
      → P (hooks_from n (u ∷ us))
  sweep_hooks-cons P n u us skip take = elim (Option-cases (get u state.nodes)) [
    | inl e ↦
        let idle : due_at u ≡ false = rw e refl in
        subst P (sym (sweep_hooks-skip n u us idle)) (skip idle)
    | inr (hook, e) ↦ elim (Bool-cases (is_due print_value state current_t hook)) [
      | inl due ↦ subst P (sym (sweep_hooks-take n u us hook e due)) (take hook e due)
      | inr no_fire ↦
          let idle : due_at u ≡ false = rw e no_fire in
          subst P (sym (sweep_hooks-skip n u us idle)) (skip idle)
    ]
  ]

  pub sweep_hooks-IsStaging : (n : Int64) (us : List Urn) → All IsStaging (hooks_from n us)
  unfolding sweep_hooks
  sweep_hooks-IsStaging n [] = tt
  sweep_hooks-IsStaging n (u ∷ us) =
      sweep_hooks-cons (All IsStaging) n u us (λ idle. sweep_hooks-IsStaging n us)
        λ hook e due.
          let both = pair-IsStaging ((n + 1) % 2 ^ 64) hook in
          (both.0, (both.1, sweep_hooks-IsStaging ((n + 2) % 2 ^ 64) us))

  pub sweep_hooks-HasMark :
      (n : Int64) (us : List Urn) (u : Urn) (hook : Node)
      → contains u us ≡ true
      → get u state.nodes ≡ some hook
      → hook.urn ≡ u
      → is_due print_value state current_t hook ≡ true
      → HasMark u (hooks_from n us)
  unfolding sweep_hooks contains
  sweep_hooks-HasMark n [] u hook i e same due = absurd (ground arith)
  sweep_hooks-HasMark n (w ∷ us) u hook i e same due = elim (Bool-cases (w == u)) [
    | inl here ↦
        let at_w : get w state.nodes ≡ some hook =
          subst (λ (x : Urn). get x state.nodes ≡ some hook) (sym ((eq_iff w u).0 here)) e in
        subst (HasMark u) (sym (sweep_hooks-take n w us hook at_w due)) (
          inr (
            inl (
              subst (λ (x : Urn). Marks x (pair_at ((n + 1) % 2 ^ 64) hook).1) same
                (pair-Marks ((n + 1) % 2 ^ 64) hook))))
    | inr other ↦
        let later : contains u us ≡ true = ground arith in
        sweep_hooks-cons (HasMark u) n w us
          (λ idle. sweep_hooks-HasMark n us u hook later e same due)
          λ met at ready.
            inr (inr (sweep_hooks-HasMark ((n + 2) % 2 ^ 64) us u hook later e same due))
  ]

  pub sweep_once-IsStaging :
      All IsStaging (sweep_once print_value texts state current_t actor base_seq now)
  unfolding sweep_once
  sweep_once-IsStaging = sweep_hooks-IsStaging 0 (nodes_of_type state "t_hook")
