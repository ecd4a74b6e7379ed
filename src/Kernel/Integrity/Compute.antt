-- ===== src/Kernel/Integrity/Compute.antt =====
-- internal/kernel/log_integrity.go, `computeLogIntegrity`: the walk beside the replay and the report.
use moos_kernel.Prelude.{
  ℕ, suc, ◌+◌, ◌-◌, String, Bool, true, false, none, some, List, [], ◌∷◌, ◌++◌, ◌==◌, nat_eq,
  if◌then◌else◌, length, ok, err, Result, Map, get, put, set_add, is_empty,
}
use moos_kernel.Graph.{Urn, Int64, EvalResult, PersistedRewrite, GraphState}
use moos_kernel.Graph.Numbers.{int64_gt}
use moos_kernel.Graph.State.{new_graph_state}
use moos_kernel.Fold.{FoldError, evaluate_at}
use moos_kernel.Kernel.Folded.Restart.{max_seq}
use moos_kernel.Kernel.Integrity.{
  Digest, CollisionEntry, CollisionGroup, LogIntegrity, scan_entries, unscanned, contains_seq,
  entry_at, effect_of, collision_entry, entry_applied,
}

-- `bySeq`: the entries of each group so far.
abbrev pub BySeq : Type 0
BySeq = List (Int64 × List CollisionEntry)

-- `g.Entries = append(g.Entries, entry)`, in a new group where there is none.
unfoldable pub add_entry : Int64 → CollisionEntry → BySeq → BySeq
add_entry seq entry [] = (seq, entry ∷ []) ∷ []
add_entry seq entry ((s, entries) ∷ groups) =
    if nat_eq s seq
    then (s, entries ++ entry ∷ []) ∷ groups
    else (s, entries) ∷ add_entry seq entry groups

module _ (digest : Digest) (dup : List Int64) where
  unfoldable pub note_entry : ℕ → PersistedRewrite → Result FoldError EvalResult → BySeq → BySeq
  unfolding contains_seq add_entry collision_entry effect_of
  note_entry i pr outcome groups =
      if contains_seq pr.log_seq dup
      then add_entry pr.log_seq (collision_entry digest (suc i) pr (effect_of outcome)) groups
      else groups

  -- The mirror of `Replay`, from the entry at `i`: every error is skipped.
  unfoldable pub walk_entries : ℕ → GraphState → List PersistedRewrite → BySeq → BySeq
  unfolding note_entry entry_at
  walk_entries i state [] groups = groups
  walk_entries i state (pr ∷ entries) groups =
      let (next, outcome) = evaluate_at state pr.envelope (entry_at pr) in
      let noted = note_entry i pr outcome groups in
      elim outcome [
        | err _ ↦ walk_entries (suc i) state entries noted
        | ok _ ↦ walk_entries (suc i) next entries noted
      ]

-- The `fingerprints` of a group, as a set.
abbrev pub fingerprints : List CollisionEntry → List String
fingerprints [] = []
fingerprints (e ∷ es) = set_add e.fingerprint (fingerprints es)

abbrev pub applied_stamps : List CollisionEntry → List String
applied_stamps [] = []
applied_stamps (e ∷ es) =
    if e.applied_at == "" then applied_stamps es else set_add e.applied_at (applied_stamps es)

abbrev pub count_effect : Bool → List CollisionEntry → ℕ
count_effect applied [] = 0
count_effect applied (e ∷ es) =
    let rest = count_effect applied es in
    elim (e.fold_effect == entry_applied) [
      | true ↦ if applied then suc rest else rest
      | false ↦ if applied then rest else suc rest
    ]

unfoldable pub finish_group : Int64 → List CollisionEntry → CollisionGroup
finish_group seq entries = record {
  log_seq = seq;
  count = length entries;
  kind = if nat_eq (length (fingerprints entries)) 1 then "exact_reapply" else "distinct_rewrites";
  entries = entries;
  distinct_applied_at = length (applied_stamps entries);
  applied_count = count_effect true entries;
}

-- `m[k]++`
unfoldable pub bump : String → Map ℕ → Map ℕ
bump k m = elim (get k m) [ none ↦ put k 1 m | some n ↦ put k (suc n) m ]

unfoldable pub add_group : CollisionGroup → LogIntegrity → LogIntegrity
unfolding bump
add_group g report = record report {
  logged_no_fold_effect = report.logged_no_fold_effect + count_effect false g.entries;
  collision_kinds = bump g.kind report.collision_kinds;
  groups = report.groups ++ g ∷ [];
}

unfoldable pub add_groups : BySeq → LogIntegrity → LogIntegrity
unfolding add_group finish_group
add_groups [] report = report
add_groups ((seq, entries) ∷ groups) report =
    add_groups groups (add_group (finish_group seq entries) report)

-- `sort.Slice` by the sequence number.
unfoldable pub insert_group : CollisionGroup → List CollisionGroup → List CollisionGroup
insert_group g [] = g ∷ []
insert_group g (h ∷ hs) = if int64_gt g.log_seq h.log_seq then h ∷ insert_group g hs else g ∷ h ∷ hs

unfoldable pub sort_groups : List CollisionGroup → List CollisionGroup
unfolding insert_group
sort_groups [] = []
sort_groups (g ∷ gs) = insert_group g (sort_groups gs)

-- The report before its groups.
abbrev pub empty_report :
    List PersistedRewrite → List Int64 → Int64 → ℕ → ℕ → Bool → Urn → LogIntegrity
empty_report entries dup_seqs max_seq pre_seq distinct single_writer kernel_urn = record {
  kernel_urn = kernel_urn;
  log_len = length entries;
  max_log_seq = max_seq;
  log_seq_missing = pre_seq;
  duplicate_log_seq_values = length dup_seqs;
  duplicate_log_seq_excess_entries = length entries - pre_seq - distinct;
  collision_kinds = [];
  logged_no_fold_effect = 0;
  single_writer = single_writer;
  groups = [];
}

unfoldable pub compute_log_integrity :
    Digest → List PersistedRewrite → List Int64 → Int64 → ℕ → ℕ → Bool → Urn → LogIntegrity
unfolding walk_entries add_groups sort_groups new_graph_state
compute_log_integrity digest entries dup_seqs max_seq pre_seq distinct single_writer kernel_urn =
    let by_seq = walk_entries digest dup_seqs 0 new_graph_state entries [] in
    let start = empty_report entries dup_seqs max_seq pre_seq distinct single_writer kernel_urn in
    let report = add_groups by_seq start in record report { groups = sort_groups report.groups }

-- What `NewRuntime` keeps as `logIntegrity`, before `SetKernelURN` was called.
unfoldable pub boot_integrity : Digest → Bool → List PersistedRewrite → LogIntegrity
unfolding scan_entries compute_log_integrity
boot_integrity digest single_writer entries =
    let scanned = scan_entries unscanned entries in
    if is_empty scanned.dup_seqs
    then record {
      kernel_urn = "";
      log_len = length entries;
      max_log_seq = max_seq 0 entries;
      log_seq_missing = scanned.pre_seq;
      duplicate_log_seq_values = 0;
      duplicate_log_seq_excess_entries = 0;
      collision_kinds = [];
      logged_no_fold_effect = 0;
      single_writer = single_writer;
      groups = [];
    }
    else compute_log_integrity digest entries scanned.dup_seqs (max_seq 0 entries) scanned.pre_seq
        (length scanned.seen) single_writer ""

-- `LogIntegrity`: the report under the URN that `SetKernelURN` has set by now.
unfoldable pub log_integrity : Urn → LogIntegrity → LogIntegrity
log_integrity kernel_urn report = record report { kernel_urn = kernel_urn }
