-- ===== src/Fold/Halt.antt =====
-- Where a replay stops.
use moos_kernel.Prelude.{
  ℕ, suc, ◌+◌, ◌≡◌, refl, sym, ◌∙◌, ap, inl, inr, false, none, some, List, [], ◌∷◌, ◌++◌, length,
  err, arith, Bool-cases,
}
use moos_kernel.Graph.{PersistedRewrite, GraphState}
use moos_kernel.Graph.State.{new_graph_state}
use moos_kernel.Graph.Consistent.{IsConsistent, new-IsConsistent}
use moos_kernel.Fold.{FoldError, evaluate_in_place}
use moos_kernel.Fold.Evaluate.{Effect-IsConsistent}
use moos_kernel.Fold.Replay.{
  ReplayError, is_idempotent_skip, replay_applied_at, Replayed, replay_loop, replay,
}
use moos_kernel.Fold.Log.{continue, once, once_cases, replay_loop-cons}

-- The entry `pr` at which the replay of `entries` from `s` at index `i` stops with `e`.
pub record StopsAt (i : ℕ) (s : GraphState) (entries : List PersistedRewrite) (t : GraphState)
    (e : ReplayError) (before : List PersistedRewrite) (pr : PersistedRewrite)
    (after : List PersistedRewrite) : Type 0 where
  pub split : entries ≡ before ++ pr ∷ after
  pub position : i + length before ≡ e.index
  pub seq : e.seq ≡ pr.log_seq
  pub replayed : replay_loop i s before ≡ (t, none)
  pub failed : evaluate_in_place t pr.envelope (replay_applied_at pr) ≡ err e.cause
  pub fatal : is_idempotent_skip pr.envelope.rewrite_type e.cause ≡ false

abbrev Stops : ℕ → GraphState → List PersistedRewrite → GraphState → ReplayError → Type 0
Stops i s entries t e =
    (before : List PersistedRewrite) × (pr : PersistedRewrite) × (after : List PersistedRewrite)
    × StopsAt i s entries t e before pr after

-- An entry that lets the replay go on from `v` stands before.
Stops-later :
    (i : ℕ) (s v : GraphState) (pr : PersistedRewrite) (entries : List PersistedRewrite)
    (t : GraphState) (e : ReplayError)
    → once i s pr ≡ (v, none)
    → Stops (suc i) v entries t e
    → Stops i s (pr ∷ entries) t e
Stops-later i s v pr entries t e h (before, at, after, stops) = (
  pr ∷ before,
  at,
  after,
  record {
    split = ap (λ (l : List PersistedRewrite). pr ∷ l) stops.split;
    position = omega (arith, stops.position);
    seq = stops.seq;
    replayed = replay_loop-cons i s pr before ∙ rw h stops.replayed;
    failed = stops.failed;
    fatal = stops.fatal;
  },
)

Stops-here :
    (i : ℕ) (s t : GraphState) (pr : PersistedRewrite) (entries : List PersistedRewrite)
    (cause : FoldError) (e : ReplayError)
    → evaluate_in_place s pr.envelope (replay_applied_at pr) ≡ err cause
    → is_idempotent_skip pr.envelope.rewrite_type cause ≡ false
    → ◌≡◌ {A = Replayed}
        (s, some (record { seq = pr.log_seq; index = i; cause = cause }))
        (t, some e)
    → Stops i s (pr ∷ entries) t e
unfolding replay_loop
Stops-here i s t pr entries cause e failed fatal same = (
  [],
  pr,
  entries,
  record {
    split = refl;
    position = ground arith;
    seq = ground arith;
    replayed = ground arith;
    failed = ground arith;
    fatal = ground arith;
  },
)

step-continues :
    (i : ℕ) (s v t : GraphState) (pr : PersistedRewrite) (entries : List PersistedRewrite)
    (e : ReplayError)
    → once i s pr ≡ (v, none)
    → replay_loop i s (pr ∷ entries) ≡ (t, some e)
    → replay_loop (suc i) v entries ≡ (t, some e)
step-continues i s v t pr entries e h stop =
    sym (ap (λ (q : Replayed). continue q (λ w. replay_loop (suc i) w entries)) h)
    ∙ sym (replay_loop-cons i s pr entries)
    ∙ stop

loop-Stops :
    (i : ℕ) (s : GraphState) (entries : List PersistedRewrite) (t : GraphState) (e : ReplayError)
    → IsConsistent s
    → replay_loop i s entries ≡ (t, some e)
    → Stops i s entries t e
loop-Stops i s [] t e c h = absurd (unfold replay_loop in ground arith)
loop-Stops i s (pr ∷ entries) t e c h = elim (once_cases i s pr c) [
  | inl (v, r, h1, effect) ↦ Stops-later i s v pr entries t e h1 (
      loop-Stops (suc i) v entries t e (Effect-IsConsistent c effect)
        (step-continues i s v t pr entries e h1 h))
  | inr (cause, failed, h1) ↦
      elim (Bool-cases (is_idempotent_skip pr.envelope.rewrite_type cause)) [
        | inl skip ↦
            let h2 : once i s pr ≡ (s, none) = rw (h1, skip) in
            Stops-later i s s pr entries t e h2
              (loop-Stops (suc i) s entries t e c (step-continues i s s t pr entries e h2 h))
        | inr fatal ↦
            let stop : once i s pr
                ≡ (s, some (record { seq = pr.log_seq; index = i; cause = cause })) =
              rw (h1, fatal) in
            let same : (s, some (record { seq = pr.log_seq; index = i; cause = cause }))
                ≡ (t, some e) =
              sym (ap (λ (q : Replayed). continue q (λ w. replay_loop (suc i) w entries)) stop)
              ∙ sym (replay_loop-cons i s pr entries)
              ∙ h in
            Stops-here i s t pr entries cause e failed fatal same
      ]
]

-- A replay that stops, stops at the first entry that fails and may not be skipped: what stands
-- before it replays without an error to the returned state, and the error has the position, the
-- sequence number and the cause of that entry.
pub replay_error :
    (log : List PersistedRewrite) (s : GraphState) (e : ReplayError)
    → replay log ≡ (s, some e)
    → (before : List PersistedRewrite) × (pr : PersistedRewrite) × (after : List PersistedRewrite)
      × StopsAt 0 new_graph_state log s e before pr after
replay_error log s e h = loop-Stops 0 new_graph_state log s e new-IsConsistent (unfold replay in h)
