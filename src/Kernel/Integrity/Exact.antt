-- ===== src/Kernel/Integrity/Exact.antt =====
-- What the report on the log says of each entry, by the specification of a rewrite.
use moos_kernel.Prelude.{
  ℕ, suc, ◌+◌, ◌≤◌, ◌≡◌, ◌≢◌, ◌↔◌, refl, sym, ◌∙◌, ap, Bool, none, List, ◌∷◌, ◌++◌, arith, ◌⊎◌, inl,
  inr, length, String, err,
}
use moos_kernel.Graph.{Urn, Int64, EvalResult, PersistedRewrite, GraphState}
use moos_kernel.Graph.State.{new_graph_state}
use moos_kernel.Graph.Consistent.{IsConsistent}
use moos_kernel.Fold.{FoldError, evaluate_in_place, evaluate_at}
use moos_kernel.Fold.Effect.{Effect, evaluate_iff}
use moos_kernel.Fold.Evaluate.{evaluate_at_cases}
use moos_kernel.Fold.Replay.{replay_applied_at, replay}
use moos_kernel.Fold.Log.{replayed-IsConsistent}
use moos_kernel.Kernel.Integrity.{Digest, CollisionEntry, entry_at, effect_of, collision_entry}
use moos_kernel.Kernel.Integrity.Compute.{boot_integrity, log_integrity}
use moos_kernel.Kernel.Integrity.Scan.{occurrences}
use moos_kernel.Kernel.Integrity.Groups.{IsTold, entry_at-eq}
use moos_kernel.Kernel.Integrity.Report.{Reports, log_integrity-IsTold}

-- The word for what the entry does to the state: it is applied, or it is in the log only.
abbrev pub IsEffect : GraphState → PersistedRewrite → String → Type 0
IsEffect s pr word =
    ((s' : GraphState) × (r : EvalResult) × Effect s pr.envelope (replay_applied_at pr) s' r
      × (word ≡ "applied"))
    ⊎ ((x : FoldError) × (evaluate_in_place s pr.envelope (replay_applied_at pr) ≡ err x)
        × (word ≡ "logged_no_fold_effect"))

-- The log holds an entry of the number `q` that `e` describes: its position from 1 on, what it does
-- to the state that the replay of the entries before it ends in, and the texts of its envelope.
pub record Describes (digest : Digest) (log : List PersistedRewrite) (q : Int64)
    (e : CollisionEntry) (before : List PersistedRewrite) (pr : PersistedRewrite)
    (after : List PersistedRewrite) : Type 0 where
  pub split : log ≡ before ++ pr ∷ after
  pub seq : pr.log_seq ≡ q
  pub position : e.append_position ≡ suc (length before)
  pub effect : IsEffect (replay before).0 pr e.fold_effect
  pub texts : e ≡ collision_entry digest e.append_position pr e.fold_effect

abbrev pub IsCollision : Digest → List PersistedRewrite → Int64 → CollisionEntry → Type 0
IsCollision digest log q e =
    (before : List PersistedRewrite) × (pr : PersistedRewrite) × (after : List PersistedRewrite)
    × Describes digest log q e before pr after

effect_of_iff :
    (s : GraphState) (pr : PersistedRewrite) (word : String)
    → IsConsistent s
    → (word ≡ effect_of (evaluate_at s pr.envelope (entry_at pr)).1) ↔ IsEffect s pr word
unfolding effect_of
effect_of_iff s pr word c =
    let at = replay_applied_at pr in
    rw entry_at-eq (elim (evaluate_at_cases s pr.envelope at c) [
      | inl (s', r, done, effect) ↦ rw done (
        λ h. inl (s', r, effect, h),
        λ (k : IsEffect s pr word). elim k [
          | inl (_, _, _, h) ↦ h
          | inr (x, failed, _) ↦
              absurd (ground (arith, (evaluate_iff s pr.envelope at s' r).1 effect, failed))
        ],
      )
      | inr (x, done, failed) ↦ rw done (
        λ h. inr (x, failed, h),
        λ (k : IsEffect s pr word). elim k [
          | inl (t, r, effect, _) ↦
              absurd (ground (arith, (evaluate_iff s pr.envelope at t r).1 effect, failed))
          | inr (_, _, h) ↦ h
        ],
      )
    ])

module _ (digest : Digest) (log : List PersistedRewrite) (q : Int64) (e : CollisionEntry) where
  collision_entry_iff :
      (n : ℕ) (pr : PersistedRewrite) (word : String)
      → (e ≡ collision_entry digest n pr word) ↔ (
          (e.append_position ≡ n)
          × (e.fold_effect ≡ word)
          × (e ≡ collision_entry digest e.append_position pr e.fold_effect))
  collision_entry_iff n pr word = (
    λ (h : e ≡ collision_entry digest n pr word).
        let at : e.append_position ≡ n =
          unfold collision_entry in ap (λ (x : CollisionEntry). x.append_position) h in
        let said : e.fold_effect ≡ word =
          unfold collision_entry in ap (λ (x : CollisionEntry). x.fold_effect) h in
        (at, said, h ∙ sym (rw (at, said) refl)),
    λ (at, said, h). h ∙ rw (at, said) refl,
  )

  IsCollision-iff : IsTold digest 0 new_graph_state log q e ↔ IsCollision digest log q e
  IsCollision-iff = (
    λ (before, pr, after, t).
        let (at, said, texts) =
          (collision_entry_iff (suc (0 + length before)) pr (word before pr)).0
            (unfold replay in t.entry) in
        (
          before,
          pr,
          after,
          record {
            split = t.split;
            seq = t.seq;
            position = omega (arith, at);
            effect = (says before pr).0 said;
            texts = texts;
          },
        ),
    λ (before, pr, after, d). (
      before,
      pr,
      after,
      record {
        split = d.split;
        seq = d.seq;
        entry =
            unfold replay in
            (collision_entry_iff (suc (0 + length before)) pr (word before pr)).1
              (omega (arith, d.position), (says before pr).1 d.effect, d.texts);
      },
    ),
  )
    where
      word : List PersistedRewrite → PersistedRewrite → String
      word before pr = effect_of (evaluate_at (replay before).0 pr.envelope (entry_at pr)).1

      says :
          (before : List PersistedRewrite) (pr : PersistedRewrite)
          → (e.fold_effect ≡ word before pr) ↔ IsEffect (replay before).0 pr e.fold_effect
      says before pr =
          effect_of_iff (replay before).0 pr e.fold_effect (replayed-IsConsistent before)

-- Of a log that replays to its end, the report lists under a sequence number other than 0 exactly
-- the entries that have this number, where two entries or more of the log have it: each at its
-- position, with the texts of its envelope, and as applied exactly where its rewrite applies to the
-- state that the replay of the entries before it ends in.
pub log_integrity_exact :
    (digest : Digest) (single_writer : Bool) (log : List PersistedRewrite) (t : GraphState)
    (urn : Urn) (q : Int64) (e : CollisionEntry)
    → replay log ≡ (t, none)
    → q ≢ 0
    → Reports (log_integrity urn (boot_integrity digest single_writer log)) q e
      ↔ ((2 ≤ occurrences q log) × IsCollision digest log q e)
log_integrity_exact digest single_writer log t urn q e whole real =
    let (to, back) = log_integrity-IsTold digest single_writer log t urn q e whole real in
    let (describe, tell) = IsCollision-iff digest log q e in
    (
      λ r. let (twice, is_told) = to r in (twice, describe is_told),
      λ (twice, collides). back (twice, tell collides),
    )
