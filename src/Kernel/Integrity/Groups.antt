-- ===== src/Kernel/Integrity/Groups.antt =====
-- The walk of `computeLogIntegrity` beside the replay: what it lists in the groups.
use native.Mathlib.Nat.{add-zero}
use moos_kernel.Prelude.{
  ℕ, suc, ◌+◌, ◌≡◌, ◌↔◌, refl, ◌∙◌, ap, subst, true, false, none, some, List, [], ◌∷◌, ◌++◌, arith,
  ◌⊎◌, inl, inr, Bool-cases, length,
}
use moos_kernel.Graph.{Int64, PersistedRewrite, GraphState}
use moos_kernel.Fold.{evaluate_at}
use moos_kernel.Fold.Replay.{replay_applied_at, Replayed, replay_loop}
use moos_kernel.Fold.Log.{once, replay_loop-cons}
use moos_kernel.Kernel.Integrity.{
  Digest, CollisionEntry, contains_seq, entry_at, effect_of, collision_entry,
}
use moos_kernel.Kernel.Integrity.Compute.{BySeq, note_entry, walk_entries}
use moos_kernel.Kernel.Integrity.Listed.{Listed, Listed-add_entry}

pub entry_at-eq : (pr : PersistedRewrite) → entry_at pr ≡ replay_applied_at pr
unfolding entry_at replay_applied_at
entry_at-eq pr = ground arith

-- The entry of the report for `pr` at index `i`, where the log before it leaves the state `s`.
abbrev pub told : Digest → ℕ → GraphState → PersistedRewrite → CollisionEntry
told digest i s pr =
    collision_entry digest (suc i) pr (effect_of (evaluate_at s pr.envelope (entry_at pr)).1)

-- The log from index `i` and state `s` on holds an entry of number `q`, which the report tells as
-- `e`, by the state that the replay of what stands before it ends in.
pub record Tells (digest : Digest) (i : ℕ) (s : GraphState) (log : List PersistedRewrite)
    (q : Int64) (e : CollisionEntry) (before : List PersistedRewrite) (pr : PersistedRewrite)
    (after : List PersistedRewrite) : Type 0 where
  pub split : log ≡ before ++ pr ∷ after
  pub seq : pr.log_seq ≡ q
  pub entry : e ≡ told digest (i + length before) (replay_loop i s before).0 pr

abbrev pub IsTold :
    Digest → ℕ → GraphState → List PersistedRewrite → Int64 → CollisionEntry → Type 0
IsTold digest i s log q e =
    (before : List PersistedRewrite) × (pr : PersistedRewrite) × (after : List PersistedRewrite)
    × Tells digest i s log q e before pr after

-- A replay that goes to its end goes through its first entry.
once_whole :
    (i : ℕ) (s : GraphState) (pr : PersistedRewrite) (log : List PersistedRewrite) (t : GraphState)
    → replay_loop i s (pr ∷ log) ≡ (t, none)
    → (v : GraphState) × (once i s pr ≡ (v, none)) × (replay_loop (suc i) v log ≡ (t, none))
once_whole i s pr log t h = go (once i s pr) refl
  where
    go :
        (q : Replayed)
        → once i s pr ≡ q
        → (v : GraphState) × (once i s pr ≡ (v, none)) × (replay_loop (suc i) v log ≡ (t, none))
    go (v, none) e = (v, e, ground (arith, replay_loop-cons i s pr log, h, e))
    go (v, some x) e = absurd (ground (arith, replay_loop-cons i s pr log, h, e))

module _ (digest : Digest) where
  walk_entries-cons :
      (dup : List Int64) (i : ℕ) (s : GraphState) (pr : PersistedRewrite)
      (log : List PersistedRewrite) (groups : BySeq)
      → walk_entries digest dup i s (pr ∷ log) groups
        ≡ walk_entries digest dup
            (suc i)
            (once i s pr).0
            log
            (note_entry digest dup i pr (evaluate_at s pr.envelope (entry_at pr)).1 groups)
  unfolding walk_entries replay_loop
  walk_entries-cons dup i s pr log groups = ground (arith, entry_at-eq pr)

  Listed-note_entry :
      (dup : List Int64) (i : ℕ) (s : GraphState) (pr : PersistedRewrite) (groups : BySeq)
      (q : Int64) (e : CollisionEntry)
      → contains_seq q dup ≡ true
      → Listed q e (note_entry digest dup i pr (evaluate_at s pr.envelope (entry_at pr)).1 groups)
        ↔ (((pr.log_seq ≡ q) × (e ≡ told digest i s pr)) ⊎ Listed q e groups)
  unfolding note_entry
  Listed-note_entry dup i s pr groups q e found = elim (Bool-cases (contains_seq pr.log_seq dup)) [
    | inl known ↦ rw known (Listed-add_entry q pr.log_seq e (told digest i s pr) groups)
    | inr fresh ↦ rw fresh (
      λ l. inr l,
      λ (l : ((pr.log_seq ≡ q) × (e ≡ told digest i s pr)) ⊎ Listed q e groups). elim l [
        | inl (same, _) ↦ absurd (ground (arith, ap (λ (k : Int64). contains_seq k dup) same))
        | inr old ↦ old
      ],
    )
  ]

  module _ (i : ℕ) (s : GraphState) (pr : PersistedRewrite) (log : List PersistedRewrite)
      (q : Int64) (e : CollisionEntry) where
    IsTold-here : pr.log_seq ≡ q → e ≡ told digest i s pr → IsTold digest i s (pr ∷ log) q e
    IsTold-here same new = (
      [],
      pr,
      log,
      record { split = refl; seq = same; entry = unfold replay_loop in rw add-zero new },
    )

    IsTold-later :
        (v : GraphState)
        → once i s pr ≡ (v, none)
        → IsTold digest (suc i) v log q e
        → IsTold digest i s (pr ∷ log) q e
    IsTold-later v h (before, at, after, tells) =
        let moved : suc i + length before ≡ i + suc (length before) = omega arith in
        (
          pr ∷ before,
          at,
          after,
          record {
            split = ap (λ (l : List PersistedRewrite). pr ∷ l) tells.split;
            seq = tells.seq;
            entry = rw (replay_loop-cons i s pr before, h, ← moved) tells.entry;
          },
        )

    IsTold-cases :
        (v : GraphState)
        → once i s pr ≡ (v, none)
        → IsTold digest i s (pr ∷ log) q e
        → ((pr.log_seq ≡ q) × (e ≡ told digest i s pr)) ⊎ IsTold digest (suc i) v log q e
    IsTold-cases v h ([], at, after, tells) =
        let same : at ≡ pr = ground (arith, tells.split) in
        let start : replay_loop i s [] ≡ (s, none) = unfold replay_loop in refl in
        inl (
          subst (λ (p : PersistedRewrite). p.log_seq ≡ q) same tells.seq,
          subst (λ (p : PersistedRewrite). e ≡ told digest i s p) same
              (tells.entry ∙ rw (add-zero, start) refl),
        )
    IsTold-cases v h (x ∷ before, at, after, tells) =
        let same : x ≡ pr = ground (arith, tells.split) in
        let rest : log ≡ before ++ at ∷ after = ground (arith, tells.split) in
        let moved : suc i + length before ≡ i + suc (length before) = omega arith in
        let start : replay_loop i s (x ∷ before) ≡ replay_loop (suc i) v before =
          rw (replay_loop-cons i s x before, same, h) refl in
        inr (
          before,
          at,
          after,
          record { split = rest; seq = tells.seq; entry = tells.entry ∙ rw (← moved, start) refl },
        )

  IsTold-nil :
      (i : ℕ) (s : GraphState) (q : Int64) (e : CollisionEntry) → IsTold digest i s [] q e → ⊥
  IsTold-nil i s q e ([], pr, after, tells) = ground (arith, tells.split)
  IsTold-nil i s q e (x ∷ before, pr, after, tells) = ground (arith, tells.split)

  -- From a state of which the rest of the log replays to its end.
  pub walk_entries-lists :
      (dup : List Int64) (log : List PersistedRewrite) (i : ℕ) (s t : GraphState) (groups : BySeq)
      (q : Int64) (e : CollisionEntry)
      → contains_seq q dup ≡ true
      → replay_loop i s log ≡ (t, none)
      → Listed q e (walk_entries digest dup i s log groups)
        ↔ (Listed q e groups ⊎ IsTold digest i s log q e)
  walk_entries-lists dup [] i s t groups q e found whole =
      unfold walk_entries in
      (
        λ l. inl l,
        λ (l : Listed q e groups ⊎ IsTold digest i s [] q e). elim l [
          | inl old ↦ old
          | inr is_told ↦ absurd (IsTold-nil i s q e is_told)
        ],
      )
  walk_entries-lists dup (pr ∷ log) i s t groups q e found whole =
      let (v, one, rest) = once_whole i s pr log t whole in
      let noted = note_entry digest dup i pr (evaluate_at s pr.envelope (entry_at pr)).1 groups in
      let (here, back) = Listed-note_entry dup i s pr groups q e found in
      let (to, from) = walk_entries-lists dup log (suc i) v t noted q e found rest in
      rw (walk_entries-cons dup i s pr log groups, one)
        (
          λ l. elim (to l) [
            | inl l ↦ elim (here l) [
              | inl (same, new) ↦ inr (IsTold-here i s pr log q e same new)
              | inr old ↦ inl old
            ]
            | inr later ↦ inr (IsTold-later i s pr log q e v one later)
          ],
          λ (l : Listed q e groups ⊎ IsTold digest i s (pr ∷ log) q e). elim l [
            | inl old ↦ from (inl (back (inr old)))
            | inr is_told ↦ elim (IsTold-cases i s pr log q e v one is_told) [
              | inl now ↦ from (inl (back (inl now)))
              | inr later ↦ from (inr later)
            ]
          ],
        )

  Listed-note_absent :
      (dup : List Int64) (i : ℕ) (s : GraphState) (pr : PersistedRewrite) (groups : BySeq)
      (q : Int64) (e : CollisionEntry)
      → contains_seq q dup ≡ false
      → Listed q e (note_entry digest dup i pr (evaluate_at s pr.envelope (entry_at pr)).1 groups)
      → Listed q e groups
  unfolding note_entry
  Listed-note_absent dup i s pr groups q e fresh = elim (Bool-cases (contains_seq pr.log_seq dup)) [
    | inl known ↦ rw known (λ m.
        elim ((Listed-add_entry q pr.log_seq e (told digest i s pr) groups).0 m) [
          | inl (same, _) ↦ absurd (ground (arith, ap (λ (k : Int64). contains_seq k dup) same))
          | inr old ↦ old
        ])
    | inr unknown ↦ rw unknown (λ m. m)
  ]

  -- A number that the scan found once at most has no group.
  pub walk_entries-absent :
      (dup : List Int64) (log : List PersistedRewrite) (i : ℕ) (s : GraphState) (groups : BySeq)
      (q : Int64) (e : CollisionEntry)
      → contains_seq q dup ≡ false
      → Listed q e (walk_entries digest dup i s log groups)
      → Listed q e groups
  walk_entries-absent dup [] i s groups q e fresh l = unfold walk_entries in l
  walk_entries-absent dup (pr ∷ log) i s groups q e fresh l =
      let outcome = (evaluate_at s pr.envelope (entry_at pr)).1 in
      let noted = note_entry digest dup i pr outcome groups in
      Listed-note_absent dup i s pr groups q e fresh (
        walk_entries-absent dup log (suc i) (once i s pr).0 noted q e fresh
          (subst (λ (g : BySeq). Listed q e g) (walk_entries-cons dup i s pr log groups) l))
