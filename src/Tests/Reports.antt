-- ===== src/Tests/Reports.antt =====
-- The report on a log, at concrete inputs.
use moos_kernel.Prelude.{
  ◌≤◌, ◌≡◌, ◌↔◌, refl, true, none, some, List, [], ◌∷◌, get, put, copy_map, arith,
}
use moos_kernel.Graph.{PersistedRewrite}
use moos_kernel.Graph.State.{clone}
use moos_kernel.Fold.{evaluate_at, add_node, new_node, node_result}
use moos_kernel.Fold.Replay.{replay_loop, replay}
use moos_kernel.Kernel.Integrity.{Digest, CollisionEntry, LogIntegrity}
use moos_kernel.Kernel.Integrity.Compute.{boot_integrity, log_integrity}
use moos_kernel.Kernel.Integrity.Scan.{occurrences}
use moos_kernel.Kernel.Integrity.Report.{Reports}
use moos_kernel.Kernel.Integrity.Exact.{IsCollision, log_integrity_exact}
use moos_kernel.Tests.Samples.{adding, entry}

abbrev digest : Digest
digest = record { marshal = λ env. some env.node_urn; sha256_hex = λ s. s; format = λ t. "now" }

-- Alice is added, added again under the same number, and Bob after her.
abbrev posted_twice : List PersistedRewrite
posted_twice =
    entry 5 (adding "alice" "user" [])
    ∷ entry 5 (adding "alice" "user" [])
    ∷ entry 6 (adding "bob" "agent" [])
    ∷ []

whole : replay posted_twice ≡ ((replay posted_twice).0, none)
unfolding replay replay_loop evaluate_at get clone copy_map add_node put
    moos_kernel.Fold.Replay.is_idempotent_skip
whole = refl

abbrev report : LogIntegrity
report = boot_integrity digest true posted_twice

abbrev second : CollisionEntry
second = record {
  append_position = 2;
  applied_at = "now";
  rewrite_type = "ADD";
  actor = "root";
  target_urn = "alice";
  fingerprint = "alice";
  fold_effect = "logged_no_fold_effect";
}

excess : report.duplicate_log_seq_excess_entries ≡ 1
unfolding boot_integrity evaluate_at get clone copy_map add_node put
excess = refl

without_effect : report.logged_no_fold_effect ≡ 1
unfolding boot_integrity evaluate_at get clone copy_map add_node put
without_effect = refl

log_integrity_exact_example :
    Reports (log_integrity "urn:moos:kernel:a" (boot_integrity digest true posted_twice)) 5 second
    ↔ ((2 ≤ occurrences 5 posted_twice) × IsCollision digest posted_twice 5 second)
log_integrity_exact_example =
    log_integrity_exact digest true posted_twice (replay posted_twice).0 "urn:moos:kernel:a" 5
      second whole (λ h. ground arith)
