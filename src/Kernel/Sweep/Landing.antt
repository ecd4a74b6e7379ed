-- ===== src/Kernel/Sweep/Landing.antt =====
-- internal/kernel/runtime.go, `ApplyProgram`: a hook that a batch has marked stays marked through what
-- follows the fold.
use moos_kernel.Prelude.{
  ◌+◌, String, ◌≡◌, ◌≢◌, refl, sym, ◌∙◌, ap, subst, inl, inr, true, not, Option, none, some, List,
  [], ◌∷◌, ◌==◌, if◌then◌else◌, get, test_of_eq, Result, ok, err, arith, Bool-cases,
}
use moos_kernel.Graph.{Urn, Time, Node, Envelope, EvalResult, PersistedRewrite, GraphState}
use moos_kernel.Fold.Program.{evaluate_program_at}
use moos_kernel.Kernel.{Host, Runtime, KernelError, persist}
use moos_kernel.Kernel.Commit.{inject_property_spec, broadcast, commit}
use moos_kernel.Kernel.Apply.{settle_quietly, bump_envelope, bump_session_local_t}
use moos_kernel.Kernel.Program.{
  times, persisted_batch, seq_after, sessions_to_bump, bump_all, broadcast_all, persist_batch,
}
use moos_kernel.Kernel.Folded.{IsStore, IsFolded, Committed, commit-Committed}
use moos_kernel.Kernel.Folded.Writers.{bump-Grown}
use moos_kernel.Kernel.Folded.Batches.{landed, landed-IsFolded}
use moos_kernel.Kernel.Says.{Spares, Effect-keeps}
use moos_kernel.Kernel.Sweep.Batch.{IsProposed}

another_field : (f : String) → f ≡ "local_t" → f ≢ "firing_state"
another_field f a b =
    let same : ("local_t" == "firing_state") ≡ true = test_of_eq _ _ (sym a ∙ b) in cc

module _ {S : Type 0} (host : Host S) (laws : IsStore host.store) (u : Urn) where
  pub settled-IsProposed :
      (rt : Runtime S) (env : Envelope)
      (q : Runtime S × Result KernelError (EvalResult × PersistedRewrite))
      → Spares u "firing_state" "proposed" env
      → Committed host rt env q
      → IsProposed rt.state u
      → IsProposed (settle_quietly host q).0.state u
  unfolding broadcast
  settled-IsProposed rt env (rt', err e) other (i, same, log) p =
      subst (λ (s : GraphState). IsProposed s u) (sym same) p
  settled-IsProposed rt env (rt', ok (r, pr)) other (i, e, log, effect) p =
      Effect-keeps rt.state env pr.applied_at rt'.state r u "firing_state" "proposed" other effect p

  bumped_field :
      (rt : Runtime S) (session : Urn) (node : Node)
      → (inject_property_spec rt.registry (bump_envelope rt.state session node) node).field
        ≡ "local_t"
  unfolding inject_property_spec bump_envelope
  bumped_field rt session node = ground arith

  -- The bump of a session writes another field.
  bump-IsProposed :
      (rt : Runtime S) (session : Urn)
      → IsFolded host rt
      → IsProposed rt.state u
      → IsProposed (bump_session_local_t host rt session).state u
  unfolding bump_session_local_t
  bump-IsProposed rt session i p = go (get session rt.state.nodes)
    where
      mark : Node → Envelope
      mark node = inject_property_spec rt.registry (bump_envelope rt.state session node) node

      other : (node : Node) → Spares u "firing_state" "proposed" (mark node)
      other node k t f = absurd (another_field (mark node).field (bumped_field rt session node) f)

      go :
          (o : Option Node)
          → IsProposed
              (elim o as (λ _. Runtime S) [
                | none ↦ rt
                | some node ↦
                    if not (node.type_id == "session")
                    then rt
                    else (settle_quietly host (commit host rt (mark node))).0
              ]).state
              u
      go none = p
      go (some node) = elim (Bool-cases (node.type_id == "session")) [
        | inr no_session ↦ rw no_session p
        | inl is_session ↦ rw is_session (
            settled-IsProposed rt (mark node) (commit host rt (mark node)) (other node)
              (commit-Committed host laws rt (mark node) i) p)
      ]

  bump_all-IsProposed :
      (us : List Urn) (rt : Runtime S)
      → IsFolded host rt
      → IsProposed rt.state u
      → IsProposed (bump_all host rt us).state u
  unfolding bump_all
  bump_all-IsProposed [] rt i p = p
  bump_all-IsProposed (w ∷ us) rt i p =
      bump_all-IsProposed us (bump_session_local_t host rt w)
        (bump-Grown host laws rt w i).is_folded (bump-IsProposed rt w i p)

  broadcast_all-state :
      (prs : List PersistedRewrite) (rt : Runtime S) → (broadcast_all host rt prs).state ≡ rt.state
  unfolding broadcast_all broadcast
  broadcast_all-state [] rt = refl
  broadcast_all-state (pr ∷ prs) rt = broadcast_all-state prs (broadcast host rt pr)

  pub persist_batch-IsProposed :
      (rt rt' : Runtime S) (base : Time) (next : GraphState) (rs rs' : List EvalResult)
      (envs : List Envelope)
      → IsFolded host rt
      → evaluate_program_at (λ i. base + i) rt.state envs (times base 0 envs) ≡ (next, ok rs)
      → IsProposed next u
      → persist_batch host rt next rs envs (persisted_batch base 0 rt.log_seq envs) ≡ (rt', ok rs')
      → IsProposed rt'.state u
  unfolding persist_batch
  persist_batch-IsProposed rt rt' base next rs rs' envs i h p =
      go (host.store.append prs rt.stored) refl
    where
      prs : List PersistedRewrite
      prs = persisted_batch base 0 rt.log_seq envs

      go :
          (q : S × Option String)
          → host.store.append prs rt.stored ≡ q
          → (elim q.1 as (λ _. Runtime S × Result KernelError (List EvalResult)) [
            | some e ↦
                (record rt { log_seq = seq_after rt.log_seq envs; stored = q.0 }, err (persist e))
            | none ↦ (
              broadcast_all host
                  (bump_all host
                    (landed host laws rt base next envs q.0)
                    (sessions_to_bump rt.state envs []))
                  prs,
              ok rs,
            )
          ])
            ≡ (rt', ok rs')
          → IsProposed rt'.state u
      go (stored, some e) a k = absurd (ground arith)
      go (stored, none) a k =
          let l = landed host laws rt base next envs stored in
          let us = sessions_to_bump rt.state envs [] in
          let there : IsProposed (bump_all host l us).state u =
            bump_all-IsProposed us l (landed-IsFolded host laws rt base next rs envs stored i h a)
              p in
          subst (λ (s : GraphState). IsProposed s u)
            (sym (broadcast_all-state prs (bump_all host l us)) ∙ ap (λ q. q.0.state) k) there
