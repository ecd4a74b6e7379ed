-- ===== src/Fold/Log.antt =====
-- The state is the fold of the log: growth, duplicates and failure of a replay.
use mathlib.Core.List.{append-nil}
use native.Mathlib.Nat.{add-zero}
use moos_kernel.Prelude.{
  ℕ, suc, ◌+◌, ◌≡◌, refl, ◌∙◌, subst, inl, inr, ◌⊎◌, none, some, List, [], ◌∷◌, ◌++◌, if◌then◌else◌,
  length, err, arith, Bool-cases,
}
use moos_kernel.Graph.{EvalResult, PersistedRewrite, GraphState}
use moos_kernel.Graph.State.{new_graph_state}
use moos_kernel.Graph.Consistent.{IsConsistent, new-IsConsistent}
use moos_kernel.Fold.{FoldError, evaluate_in_place}
use moos_kernel.Fold.Effect.{Effect}
use moos_kernel.Fold.Evaluate.{Effect-IsConsistent, evaluate_at_cases, evaluate_at-Effect}
use moos_kernel.Fold.Identity.{Later, Later-refl, Later-trans, Effect-Later}
use moos_kernel.Fold.Replay.{is_idempotent_skip, replay_applied_at, Replayed, replay_loop, replay}

-- The replay goes on from where it stands, unless it stopped.
abbrev pub continue : Replayed → (GraphState → Replayed) → Replayed
continue (s, none) k = k s
continue (s, some e) k = (s, some e)

-- One entry of the log.
abbrev pub once : ℕ → GraphState → PersistedRewrite → Replayed
once i s pr = replay_loop i s (pr ∷ [])

pub replay_loop-cons :
    (i : ℕ) (s : GraphState) (pr : PersistedRewrite) (entries : List PersistedRewrite)
    → replay_loop i s (pr ∷ entries) ≡ continue (once i s pr) (λ t. replay_loop (suc i) t entries)
unfolding replay_loop
replay_loop-cons i s pr entries = ground arith

replay_loop-append :
    (i : ℕ) (s : GraphState) (xs ys : List PersistedRewrite)
    → replay_loop i s (xs ++ ys)
      ≡ continue (replay_loop i s xs) (λ t. replay_loop (i + length xs) t ys)
replay_loop-append i s [] ys = unfold replay_loop in rw add-zero
replay_loop-append i s (pr ∷ xs) ys =
    let e : suc i + length xs ≡ i + suc (length xs) = omega arith in
    rw (replay_loop-cons i s pr (xs ++ ys), replay_loop-cons i s pr xs, ← e)
      (go (λ t. replay_loop-append (suc i) t xs ys) (once i s pr))
  where
    go :
        ((t : GraphState)
          → replay_loop (suc i) t (xs ++ ys)
            ≡ continue (replay_loop (suc i) t xs) (λ v. replay_loop (suc i + length xs) v ys))
        → (q : Replayed)
        → continue q (λ t. replay_loop (suc i) t (xs ++ ys))
          ≡ continue
              (continue q (λ t. replay_loop (suc i) t xs))
              (λ t. replay_loop (suc i + length xs) t ys)
    go ih (t, none) = ih t
    go ih (t, some e) = refl

pub replay-append :
    (xs ys : List PersistedRewrite)
    → replay (xs ++ ys) ≡ continue (replay xs) (λ t. replay_loop (length xs) t ys)
unfolding replay
replay-append xs ys =
    let e : 0 + length xs ≡ length xs = omega arith in rw replay_loop-append (rw e)

-- What one entry does to a consistent state.
pub once_cases :
    (i : ℕ) (s : GraphState) (pr : PersistedRewrite)
    → IsConsistent s
    → ((s' : GraphState) × (r : EvalResult) × (once i s pr ≡ (s', none))
        × Effect s pr.envelope (replay_applied_at pr) s' r)
      ⊎ ((e : FoldError) × (evaluate_in_place s pr.envelope (replay_applied_at pr) ≡ err e)
          × (once i s pr ≡ (
              if is_idempotent_skip pr.envelope.rewrite_type e
              then (s, none)
              else (s, some (record { seq = pr.log_seq; index = i; cause = e })))))
unfolding replay_loop
once_cases i s pr c = elim (evaluate_at_cases s pr.envelope (replay_applied_at pr) c) [
  | inl (s', r, h, effect) ↦ inl (s', r, ground arith, effect)
  | inr (e, h, failed) ↦ inr (e, failed, ground arith)
]

once-IsConsistent :
    (i : ℕ) (s : GraphState) (pr : PersistedRewrite)
    → IsConsistent s
    → IsConsistent (once i s pr).0 × Later s (once i s pr).0
once-IsConsistent i s pr c = elim (once_cases i s pr c) [
  | inl (s', r, h, effect) ↦ rw h (Effect-IsConsistent c effect, Effect-Later effect)
  | inr (e, failed, h) ↦ elim (Bool-cases (is_idempotent_skip pr.envelope.rewrite_type e)) [
    | inl skip ↦ rw (h, skip) (c, Later-refl s)
    | inr stop ↦ rw (h, stop) (c, Later-refl s)
  ]
]

replay_loop-IsConsistent :
    (i : ℕ) (s : GraphState) (entries : List PersistedRewrite)
    → IsConsistent s
    → IsConsistent (replay_loop i s entries).0 × Later s (replay_loop i s entries).0
replay_loop-IsConsistent i s [] c = unfold replay_loop in (c, Later-refl s)
replay_loop-IsConsistent i s (pr ∷ entries) c = rw (replay_loop-cons i s pr entries) (
    go (λ t d. replay_loop-IsConsistent (suc i) t entries d) (once i s pr)
      (once-IsConsistent i s pr c))
  where
    go :
        ((t : GraphState)
          → IsConsistent t
          → IsConsistent (replay_loop (suc i) t entries).0
            × Later t (replay_loop (suc i) t entries).0)
        → (q : Replayed) → IsConsistent q.0 × Later s q.0
        → IsConsistent (continue q (λ t. replay_loop (suc i) t entries)).0
          × Later s (continue q (λ t. replay_loop (suc i) t entries)).0
    go ih (t, some e) h = h
    go ih (t, none) (d, later) =
        let (d', later') = ih t d in
        (d', Later-trans s t (replay_loop (suc i) t entries).0 later later')

-- Whatever the log holds, its replay ends in a consistent state, also where it stops with an error,
-- and a longer log keeps every node that the replay of the shorter log has, with its identity and
-- its immutable properties.
pub replay-IsConsistent :
    (log more : List PersistedRewrite)
    → IsConsistent (replay (log ++ more)).0 × Later (replay log).0 (replay (log ++ more)).0
replay-IsConsistent log more = rw (replay-append log more) (go (replay log) start)
  where
    start : IsConsistent (replay log).0
    start = unfold replay in (replay_loop-IsConsistent 0 new_graph_state log new-IsConsistent).0

    go :
        (q : Replayed)
        → IsConsistent q.0
        → IsConsistent (continue q (λ t. replay_loop (length log) t more)).0
          × Later q.0 (continue q (λ t. replay_loop (length log) t more)).0
    go (t, none) d = replay_loop-IsConsistent (length log) t more d
    go (t, some e) d = (d, Later-refl t)

pub replayed-IsConsistent : (log : List PersistedRewrite) → IsConsistent (replay log).0
replayed-IsConsistent log =
    subst (λ (l : List PersistedRewrite). IsConsistent (replay l).0) (append-nil log)
      (replay-IsConsistent log []).0

-- One more entry in the log is one more step from the replayed state.
pub replay-snoc :
    (log : List PersistedRewrite) (s : GraphState) (pr : PersistedRewrite)
    → replay log ≡ (s, none)
    → replay (log ++ pr ∷ []) ≡ once (length log) s pr
replay-snoc log s pr h = rw (replay-append log (pr ∷ []), h)

once-Effect :
    (i : ℕ) (s : GraphState) (pr : PersistedRewrite) (s' : GraphState) (r : EvalResult)
    → IsConsistent s
    → Effect s pr.envelope (replay_applied_at pr) s' r
    → once i s pr ≡ (s', none)
unfolding replay_loop
once-Effect i s pr s' r c effect =
    ground (arith, evaluate_at-Effect s pr.envelope (replay_applied_at pr) s' r c effect)

-- One more applied rewrite in the log is one more effect on the replayed state: a log that replays
-- to `s`, extended by a rewrite that takes `s` to `s'`, replays to `s'`.
pub replay-extend :
    (log : List PersistedRewrite) (s : GraphState) (pr : PersistedRewrite) (s' : GraphState)
    (r : EvalResult)
    → replay log ≡ (s, none)
    → Effect s pr.envelope (replay_applied_at pr) s' r
    → replay (log ++ pr ∷ []) ≡ (s', none)
replay-extend log s pr s' r h effect =
    let c : IsConsistent s =
      subst (λ (q : Replayed). IsConsistent q.0) h (replayed-IsConsistent log) in
    replay-snoc log s pr h ∙ once-Effect (length log) s pr s' r c effect
