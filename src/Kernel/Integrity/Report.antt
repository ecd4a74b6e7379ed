-- ===== src/Kernel/Integrity/Report.antt =====
-- What the report on the log says: `NewRuntime` with `computeLogIntegrity`.
use moos_kernel.Prelude.{
  ℕ, ◌≤◌, ◌≡◌, ◌≢◌, ◌↔◌, refl, sym, ◌∙◌, ap, subst, Bool, true, false, none, List, [], ◌∷◌, leb,
  arith, ◌⊎◌, inl, inr, Bool-cases, length, is_empty,
}
use moos_kernel.Graph.{Urn, Int64, PersistedRewrite, GraphState}
use moos_kernel.Graph.Numbers.{int64_gt}
use moos_kernel.Graph.State.{new_graph_state}
use moos_kernel.Fold.Replay.{replay}
use moos_kernel.Reactive.Engine.Scans.{In, In-append_left, In-append_right, In-append_cases}
use moos_kernel.Kernel.Integrity.{
  Digest, CollisionEntry, CollisionGroup, LogIntegrity, scan_entries, unscanned, contains_seq,
}
use moos_kernel.Kernel.Integrity.Compute.{
  BySeq, walk_entries, finish_group, add_group, add_groups, insert_group, sort_groups,
  compute_log_integrity, boot_integrity, log_integrity, empty_report,
}
use moos_kernel.Kernel.Folded.Restart.{max_seq}
use moos_kernel.Kernel.Integrity.Scan.{occurrences, dup_seqs-exact}
use moos_kernel.Kernel.Integrity.Listed.{Listed}
use moos_kernel.Kernel.Integrity.Groups.{IsTold, walk_entries-lists, walk_entries-absent}

module _ (g : CollisionGroup) where
  In-insert_group :
      (h : CollisionGroup) (hs : List CollisionGroup)
      → In g (insert_group h hs) ↔ ((g ≡ h) ⊎ In g hs)
  unfolding insert_group
  In-insert_group h [] = (λ x. x, λ x. x)
  In-insert_group h (k ∷ ks) = elim (Bool-cases (int64_gt h.log_seq k.log_seq)) [
    | inl above ↦
        let (to, back) = In-insert_group h ks in
        rw above (
          λ (x : (g ≡ k) ⊎ In g (insert_group h ks)). elim x [
            | inl here ↦ inr (inl here)
            | inr i ↦ elim (to i) [ inl new ↦ inl new | inr old ↦ inr (inr old) ]
          ],
          λ (x : (g ≡ h) ⊎ ((g ≡ k) ⊎ In g ks)). elim x [
            | inl new ↦ inr (back (inl new))
            | inr (inl here) ↦ inl here
            | inr (inr i) ↦ inr (back (inr i))
          ],
        )
    | inr below ↦ rw below (λ x. x, λ x. x)
  ]

  In-sort_groups : (gs : List CollisionGroup) → In g (sort_groups gs) ↔ In g gs
  unfolding sort_groups
  In-sort_groups [] = (λ x. x, λ x. x)
  In-sort_groups (h ∷ gs) =
      let (to, back) = In-insert_group h (sort_groups gs) in
      let (lower, lift) = In-sort_groups gs in
      (
        λ x. elim (to x) [ inl new ↦ inl new | inr i ↦ inr (lower i) ],
        λ (x : (g ≡ h) ⊎ In g gs). elim x [
          | inl new ↦ back (inl new)
          | inr i ↦ back (inr (lift i))
        ],
      )

-- The report has a group of the number, with the entry.
abbrev pub Reports : LogIntegrity → Int64 → CollisionEntry → Type 0
Reports report q e = (g : CollisionGroup) × In g report.groups × (g.log_seq ≡ q) × In e g.entries

Reports-add_groups :
    (by_seq : BySeq) (report : LogIntegrity) (q : Int64) (e : CollisionEntry)
    → Reports (add_groups by_seq report) q e ↔ (Listed q e by_seq ⊎ Reports report q e)
unfolding add_groups add_group finish_group
Reports-add_groups [] report q e =
    (λ x. inr x, λ (x : ⊥ ⊎ Reports report q e). elim x [ inl i ↦ absurd i | inr old ↦ old ])
Reports-add_groups ((s, es) ∷ by_seq) report q e =
    let next = add_group (finish_group s es) report in
    let (to, back) = Reports-add_groups by_seq next q e in
    (
      λ x. elim (to x) [
        | inl listed ↦ inl (inr listed)
        | inr (g, i, same, member) ↦
            elim (In-append_cases g report.groups (finish_group s es ∷ []) i) [
              | inl old ↦ inr (g, old, same, member)
              | inr (inl new) ↦ inl (
                  inl (
                    sym (ap (λ (h : CollisionGroup). h.log_seq) new) ∙ same,
                    subst (λ (l : List CollisionEntry). In e l)
                        (ap (λ (h : CollisionGroup). h.entries) new) member,
                  ))
              | inr (inr none_left) ↦ absurd none_left
            ]
      ],
      λ (x : (((s ≡ q) × In e es) ⊎ Listed q e by_seq) ⊎ Reports report q e). elim x [
        | inl (inl (same, member)) ↦ back (
            inr (
              finish_group s es,
              In-append_right (finish_group s es) report.groups (finish_group s es ∷ []) (inl refl),
              same,
              member,
            ))
        | inl (inr listed) ↦ back (inl listed)
        | inr (g, i, same, member) ↦
            back (inr (g, In-append_left g report.groups (finish_group s es ∷ []) i, same, member))
      ],
    )

Reports-compute :
    (digest : Digest) (log : List PersistedRewrite) (dup : List Int64) (max : Int64)
    (pre distinct : ℕ) (single_writer : Bool) (urn : Urn) (q : Int64) (e : CollisionEntry)
    → Reports (compute_log_integrity digest log dup max pre distinct single_writer urn) q e
      ↔ Listed q e (walk_entries digest dup 0 new_graph_state log [])
Reports-compute digest log dup max pre distinct single_writer urn q e =
    let by_seq = walk_entries digest dup 0 new_graph_state log [] in
    let start = empty_report log dup max pre distinct single_writer urn in
    let (to, back) = Reports-add_groups by_seq start q e in
    let sorted = λ (g : CollisionGroup). In-sort_groups g (add_groups by_seq start).groups in
    unfold compute_log_integrity in
    (
      λ (g, i, same, member). elim (to (g, (sorted g).0 i, same, member)) [
        | inl listed ↦ listed
        | inr (h, none_left, _, _) ↦ absurd none_left
      ],
      λ listed. let (g, i, same, member) = back (inl listed) in (g, (sorted g).1 i, same, member),
    )

contains_seq-empty :
    (q : Int64) (dup : List Int64) → is_empty dup ≡ true → contains_seq q dup ≡ false
unfolding contains_seq
contains_seq-empty q [] h = refl
contains_seq-empty q (s ∷ dup) h = absurd (ground arith)

-- What the report lists, in the words of the walk.
pub log_integrity-IsTold :
    (digest : Digest) (single_writer : Bool) (log : List PersistedRewrite) (t : GraphState)
    (urn : Urn) (q : Int64) (e : CollisionEntry)
    → replay log ≡ (t, none)
    → q ≢ 0
    → Reports (log_integrity urn (boot_integrity digest single_writer log)) q e
      ↔ ((2 ≤ occurrences q log) × IsTold digest 0 new_graph_state log q e)
unfolding log_integrity boot_integrity
log_integrity-IsTold digest single_writer log t urn q e whole real =
    let scanned = scan_entries unscanned log in
    let exact : contains_seq q scanned.dup_seqs ≡ leb 2 (occurrences q log) =
      dup_seqs-exact log q real in
    let (to, back) =
      Reports-compute digest log scanned.dup_seqs (max_seq 0 log) scanned.pre_seq
        (length scanned.seen) single_writer "" q e in
    let lists = λ (found : contains_seq q scanned.dup_seqs ≡ true).
      walk_entries-lists digest scanned.dup_seqs log 0 new_graph_state t [] q e found
        (unfold replay in whole) in
    elim (Bool-cases (is_empty scanned.dup_seqs)) [
      | inl healthy ↦ rw healthy (
        λ (g, none_left, _, _). absurd none_left,
        λ (twice, _). absurd (ground (arith, exact, contains_seq-empty q scanned.dup_seqs healthy)),
      )
      | inr ill ↦ rw ill (
        λ found. elim (Bool-cases (contains_seq q scanned.dup_seqs)) [
          | inl known ↦ elim ((lists known).0 (to found)) [
            | inl none_left ↦ absurd none_left
            | inr is_told ↦ (ground (arith, exact), is_told)
          ]
          | inr fresh ↦ absurd (
              walk_entries-absent digest scanned.dup_seqs log 0 new_graph_state [] q e fresh
                (to found))
        ],
        λ (twice, is_told). back ((lists (ground (arith, exact))).1 (inr is_told)),
      )
    ]
