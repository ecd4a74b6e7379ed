-- ===== src/Kernel/Folded/Writers.antt =====
-- internal/kernel/runtime.go: every writer of one rewrite keeps the state the fold of the log.
use mathlib.Core.List.{append-nil, append_assoc}
use moos_kernel.Prelude.{
  ◌≡◌, sym, ◌∙◌, ap, subst, inl, inr, Bool, false, not, Option, none, some, List, [], ◌∷◌, ◌++◌,
  ◌==◌, if◌then◌else◌, Result, ok, err, ◌>>◌, get, Bool-cases,
}
use moos_kernel.Graph.{Urn, Envelope, EvalResult, PersistedRewrite, Node, GraphState}
use moos_kernel.Fold.Identity.{Later, Later-refl, Later-trans, Effect-Later}
use moos_kernel.Kernel.{Host, Runtime, KernelError}
use moos_kernel.Kernel.Commit.{validate, inject_property_spec, broadcast, commit}
use moos_kernel.Kernel.Apply.{
  settle_quietly, bump_envelope, bump_session_local_t, bump_resolved, admit, finish_apply,
  apply_staged, check_reactive, apply_reactive,
}
use moos_kernel.Kernel.Folded.{IsStore, IsFolded, Committed, commit-Committed}

-- The log has grown at its end, and the state has moved on with it.
pub record Grown {S : Type 0} (host : Host S) (rt rt' : Runtime S) : Type 0 where
  pub is_folded : IsFolded host rt'
  pub more : List PersistedRewrite
  pub grows : rt'.log ≡ rt.log ++ more
  pub later : Later rt.state rt'.state

module _ {S : Type 0} (host : Host S) (laws : IsStore host.store) where
  pub Grown-refl : (rt : Runtime S) → IsFolded host rt → Grown host rt rt
  Grown-refl rt i = record {
    is_folded = i;
    more = [];
    grows = sym (append-nil rt.log);
    later = Later-refl rt.state;
  }

  pub Grown-trans : (a b c : Runtime S) → Grown host a b → Grown host b c → Grown host a c
  Grown-trans a b c g h = record {
    is_folded = h.is_folded;
    more = g.more ++ h.more;
    grows = h.grows ∙ ap (λ l. l ++ h.more) g.grows ∙ append_assoc a.log g.more h.more;
    later = Later-trans a.state b.state c.state g.later h.later;
  }

  broadcast-IsFolded :
      (rt : Runtime S) (pr : PersistedRewrite)
      → IsFolded host rt
      → IsFolded host (broadcast host rt pr)
  unfolding broadcast
  broadcast-IsFolded rt pr i = record { folded = i.folded; durable = i.durable }

  pub Grown-broadcast :
      (rt rt' : Runtime S) (pr : PersistedRewrite)
      → Grown host rt rt'
      → Grown host rt (broadcast host rt' pr)
  Grown-broadcast rt rt' pr g = record {
    is_folded = broadcast-IsFolded rt' pr g.is_folded;
    more = g.more;
    grows = unfold broadcast in g.grows;
    later = unfold broadcast in g.later;
  }

  settle_quietly-Grown :
      (rt : Runtime S) (env : Envelope)
      (q : Runtime S × Result KernelError (EvalResult × PersistedRewrite))
      → Committed host rt env q
      → Grown host rt (settle_quietly host q).0
  settle_quietly-Grown rt env (rt', ok (r, pr)) (i, e, log, effect) =
      Grown-broadcast rt rt' pr
        (record { is_folded = i; more = pr ∷ []; grows = log; later = Effect-Later effect })
  settle_quietly-Grown rt env (rt', err e) (i, state, log) = record {
    is_folded = i;
    more = [];
    grows = log ∙ sym (append-nil rt.log);
    later = subst (λ (t : GraphState). Later rt.state t) (sym state) (Later-refl rt.state);
  }

  quiet-Grown :
      (rt : Runtime S) (env : Envelope)
      → IsFolded host rt
      → Grown host rt (settle_quietly host (commit host rt env)).0
  quiet-Grown rt env i =
      settle_quietly-Grown rt env (commit host rt env) (commit-Committed host laws rt env i)

  pub bump-Grown :
      (rt : Runtime S) (u : Urn) → IsFolded host rt → Grown host rt (bump_session_local_t host rt u)
  unfolding bump_session_local_t
  bump-Grown rt u i = go (get u rt.state.nodes)
    where
      bumped : Node → Runtime S
      bumped node =
          (settle_quietly host (
            commit host rt
              (inject_property_spec rt.registry (bump_envelope rt.state u node) node))).0

      go :
          (o : Option Node)
          → Grown host rt (elim o as (λ _. Runtime S) [
            | none ↦ rt
            | some node ↦ if not (node.type_id == "session") then rt else bumped node
          ])
      go none = Grown-refl rt i
      go (some node) = elim (Bool-cases (node.type_id == "session")) [
        | inr other ↦ rw other (Grown-refl rt i)
        | inl session ↦ rw session (
            quiet-Grown rt (inject_property_spec rt.registry (bump_envelope rt.state u node) node)
              i)
      ]

  bump_resolved-Grown :
      (rt : Runtime S) (session : Option Urn)
      → IsFolded host rt
      → Grown host rt (bump_resolved host rt session)
  unfolding bump_resolved
  bump_resolved-Grown rt none i = Grown-refl rt i
  bump_resolved-Grown rt (some u) i = bump-Grown rt u i

  -- What one call of `applyWithOptions` may end in.
  abbrev pub Applied :
      Runtime S → Envelope → Bool → Runtime S × Result KernelError EvalResult → Type 0
  Applied rt env skip (rt', err e) = IsFolded host rt' × (rt'.state ≡ rt.state) × (rt'.log ≡ rt.log)
  Applied rt env skip (rt', ok r) =
      (prepared : Envelope) × (pr : PersistedRewrite) × (more : List PersistedRewrite) × (admit host
          rt env skip
        ≡ ok prepared)
      × (pr.envelope ≡ prepared)
      × (rt'.log ≡ rt.log ++ pr ∷ more)
      × Later rt.state rt'.state
      × IsFolded host rt'

  pub finish_apply-Applied :
      (rt : Runtime S) (env prepared : Envelope) (skip : Bool) (session : Option Urn)
      (q : Runtime S × Result KernelError (EvalResult × PersistedRewrite))
      → admit host rt env skip ≡ ok prepared
      → Committed host rt prepared q
      → Applied rt env skip (finish_apply host session q)
  finish_apply-Applied rt env prepared skip session (rt', err e) h c = c
  finish_apply-Applied rt env prepared skip session (rt', ok (r, pr)) h (i, e, log, effect) =
      let g : Grown host rt' (broadcast host (bump_resolved host rt' session) pr) =
        Grown-broadcast rt' (bump_resolved host rt' session) pr
          (bump_resolved-Grown rt' session i) in
      (
        prepared,
        pr,
        g.more,
        h,
        e,
        g.grows ∙ ap (λ l. l ++ g.more) log ∙ append_assoc rt.log (pr ∷ []) g.more,
        Later-trans rt.state rt'.state (broadcast host (bump_resolved host rt' session) pr).state
            (Effect-Later effect) g.later,
        g.is_folded,
      )

  -- The kernel's own emissions, reactive or staged, landed or dropped, keep the state the fold of the
  -- log and only add to the log.
  pub emissions-Grown :
      (rt : Runtime S) (env : Envelope)
      → IsFolded host rt
      → Grown host rt (apply_reactive host rt env).0 × Grown host rt (apply_staged host rt env).0
  unfolding apply_reactive apply_staged
  emissions-Grown rt env i = (
    checked (validate rt.registry env >> check_reactive host rt.registry env rt.state),
    checked (validate rt.registry env),
  )
    where
      checked :
          (q : Result KernelError (Unit {0}))
          → Grown host rt
              (elim q as (λ _. Runtime S × Bool) [
                | err e ↦ (rt, false)
                | ok u ↦ settle_quietly host (commit host rt env)
              ]).0
      checked (err e) = Grown-refl rt i
      checked (ok u) = quiet-Grown rt env i
