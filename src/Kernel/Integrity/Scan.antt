-- ===== src/Kernel/Integrity/Scan.antt =====
-- The scan of `NewRuntime`: which sequence numbers it finds twice.
use moos_kernel.Prelude.{
  ℕ, suc, ◌+◌, ◌≡◌, ◌≢◌, refl, ◌||◌, List, [], ◌∷◌, ◌++◌, nat_eq, leb, if◌then◌else◌, arith,
}
use moos_kernel.Graph.{Int64, PersistedRewrite}
use moos_kernel.Kernel.Integrity.{
  Scanned, seen_count, bump_seen, scan_entry, scan_entries, unscanned, contains_seq,
}

-- How many entries of the log have the sequence number.
abbrev pub occurrences : Int64 → List PersistedRewrite → ℕ
occurrences q [] = 0
occurrences q (pr ∷ log) =
    if nat_eq pr.log_seq q then suc (occurrences q log) else occurrences q log

seen_count-bump_seen :
    (p q : Int64) (seen : List (Int64 × ℕ))
    → seen_count q (bump_seen p seen)
      ≡ (if nat_eq p q then suc (seen_count q seen) else seen_count q seen)
unfolding seen_count bump_seen
seen_count-bump_seen p q [] = ground arith
seen_count-bump_seen p q ((s, n) ∷ seen) = ground (arith, seen_count-bump_seen p q seen)

contains_seq-append :
    (p q : Int64) (seqs : List Int64)
    → contains_seq q (seqs ++ p ∷ []) ≡ (contains_seq q seqs || nat_eq p q)
unfolding contains_seq
contains_seq-append p q [] = ground arith
contains_seq-append p q (s ∷ seqs) = ground (arith, contains_seq-append p q seqs)

-- What the scan keeps of each number but 0.
abbrev Scans : Scanned → Type 0
Scans at = (q : Int64) → q ≢ 0 → contains_seq q at.dup_seqs ≡ leb 2 (seen_count q at.seen)

scan_entry-Scans : (at : Scanned) (pr : PersistedRewrite) → Scans at → Scans (scan_entry at pr)
unfolding scan_entry
scan_entry-Scans at pr h q real = ground (
  arith,
  h q real,
  seen_count-bump_seen pr.log_seq q at.seen,
  seen_count-bump_seen pr.log_seq pr.log_seq at.seen,
  contains_seq-append pr.log_seq q at.dup_seqs,
)

scan_entry-seen :
    (at : Scanned) (pr : PersistedRewrite) (q : Int64)
    → q ≢ 0
    → seen_count q (scan_entry at pr).seen
      ≡ (if nat_eq pr.log_seq q then suc (seen_count q at.seen) else seen_count q at.seen)
unfolding scan_entry
scan_entry-seen at pr q real = ground (arith, seen_count-bump_seen pr.log_seq q at.seen)

scan_entries-dup :
    (at : Scanned) (log : List PersistedRewrite) (q : Int64)
    → q ≢ 0
    → Scans at
    → contains_seq q (scan_entries at log).dup_seqs
      ≡ leb 2 (seen_count q at.seen + occurrences q log)
unfolding scan_entries
scan_entries-dup at [] q real h = ground (arith, h q real)
scan_entries-dup at (pr ∷ log) q real h = ground (
  arith,
  scan_entries-dup (scan_entry at pr) log q real (scan_entry-Scans at pr h),
  scan_entry-seen at pr q real,
)

-- The scan finds exactly the numbers that two entries or more have.
pub dup_seqs-exact :
    (log : List PersistedRewrite) (q : Int64)
    → q ≢ 0
    → contains_seq q (scan_entries unscanned log).dup_seqs ≡ leb 2 (occurrences q log)
unfolding contains_seq seen_count
dup_seqs-exact log q real =
    ground
      (arith, scan_entries-dup unscanned log q real (λ p r. unfold contains_seq seen_count in refl))
