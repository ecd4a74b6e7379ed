-- ===== src/Kernel/Integrity.antt =====
-- internal/kernel/log_integrity.go, and the scan of internal/kernel/runtime.go, `NewRuntime`, that
-- it starts from.
use Prim.Native.String
use Prim.Native.String.{slice}
use moos_kernel.Prelude.{
  ℕ, zero, suc, ◌+◌, ◌-◌, String, Bool, true, false, not, ◌||◌, ◌&&◌, Option, none, some, List, [],
  ◌∷◌, ◌++◌, ◌==◌, nat_eq, leb, if◌then◌else◌, length, ok, err, Result, Map, get, put, set_add,
  is_empty,
}
use moos_kernel.Graph.{Urn, Time, Int64, Envelope, EvalResult, PersistedRewrite, GraphState}
use moos_kernel.Graph.Numbers.{int64_gt}
use moos_kernel.Graph.State.{new_graph_state}
use moos_kernel.Fold.{FoldError, evaluate_at}
use moos_kernel.Reactive.Engine.{rewrite_name}
use moos_kernel.Kernel.Folded.Restart.{max_seq}
pub mod Compute
pub mod Scan
pub mod Listed
pub mod Groups
pub mod Report
pub mod Exact

-- Go's library calls: the JSON of an envelope, which may fail, the hexadecimal digits of a SHA-256,
-- and the text of a time in UTC.
pub record Digest : Type 0 where
  pub marshal : Envelope → Option String
  pub sha256_hex : String → String
  pub format : Time → String

pub record CollisionEntry : Type 0 where
  pub append_position : ℕ
  pub applied_at : String
  pub rewrite_type : String
  pub actor : Urn
  pub target_urn : String
  pub fingerprint : String
  pub fold_effect : String

pub record CollisionGroup : Type 0 where
  pub log_seq : Int64
  pub count : ℕ
  pub kind : String
  pub entries : List CollisionEntry
  pub distinct_applied_at : ℕ
  pub applied_count : ℕ

pub record LogIntegrity : Type 0 where
  pub kernel_urn : Urn
  pub log_len : ℕ
  pub max_log_seq : Int64
  pub log_seq_missing : ℕ
  pub duplicate_log_seq_values : ℕ
  pub duplicate_log_seq_excess_entries : ℕ
  pub collision_kinds : Map ℕ
  pub logged_no_fold_effect : ℕ
  pub single_writer : Bool
  pub groups : List CollisionGroup

abbrev pub entry_applied : String
entry_applied = "applied"

abbrev pub entry_logged_no_fold_effect : String
entry_logged_no_fold_effect = "logged_no_fold_effect"

-- The counters of the scan in `NewRuntime`. `seen` counts the entries of each sequence number.
pub record Scanned : Type 0 where
  pub pre_seq : ℕ
  pub seen : List (Int64 × ℕ)
  pub dup_seqs : List Int64

-- `seen[seq]`
unfoldable pub seen_count : Int64 → List (Int64 × ℕ) → ℕ
seen_count seq [] = 0
seen_count seq ((s, n) ∷ seen) = if nat_eq s seq then n else seen_count seq seen

-- `seen[seq]++`
unfoldable pub bump_seen : Int64 → List (Int64 × ℕ) → List (Int64 × ℕ)
bump_seen seq [] = (seq, 1) ∷ []
bump_seen seq ((s, n) ∷ seen) =
    if nat_eq s seq then (s, suc n) ∷ seen else (s, n) ∷ bump_seen seq seen

unfoldable pub scan_entry : Scanned → PersistedRewrite → Scanned
unfolding seen_count bump_seen
scan_entry at pr =
    let seen = bump_seen pr.log_seq at.seen in
    if nat_eq pr.log_seq 0 then record at { pre_seq = suc at.pre_seq } else record {
      pre_seq = at.pre_seq;
      seen = seen;
      dup_seqs =
          if nat_eq (seen_count pr.log_seq seen) 2
          then at.dup_seqs ++ pr.log_seq ∷ []
          else at.dup_seqs;
    }

-- The loop of `NewRuntime`, less the maximum, which `max_seq` takes, and the count for a warning.
unfoldable pub scan_entries : Scanned → List PersistedRewrite → Scanned
unfolding scan_entry
scan_entries at [] = at
scan_entries at (pr ∷ entries) = scan_entries (scan_entry at pr) entries

abbrev pub unscanned : Scanned
unscanned = record { pre_seq = 0; seen = []; dup_seqs = [] }

-- `dup[seq]`
unfoldable pub contains_seq : Int64 → List Int64 → Bool
contains_seq seq [] = false
contains_seq seq (s ∷ seqs) = nat_eq s seq || contains_seq seq seqs

unfoldable pub envelope_target : Envelope → String
envelope_target env =
    if not (env.node_urn == "")
    then env.node_urn
    else if not (env.target_urn == "")
    then env.target_urn
    else if not (env.src_urn == "") || not (env.tgt_urn == "")
    then String.◌++◌ env.src_urn (String.◌++◌ " -> " env.tgt_urn)
    else ""

-- `at`: the time of the application, or the timestamp where it is zero.
unfoldable pub entry_at : PersistedRewrite → Time
entry_at pr = if nat_eq pr.applied_at 0 then pr.timestamp else pr.applied_at

-- `effect`
unfoldable pub effect_of : Result FoldError EvalResult → String
effect_of (ok r) = entry_applied
effect_of (err e) = entry_logged_no_fold_effect

module _ (digest : Digest) where
  unfoldable pub envelope_fingerprint : Envelope → String
  envelope_fingerprint env = elim (digest.marshal env) [
    | none ↦ "unfingerprintable"
    | some text ↦ slice (digest.sha256_hex text) 0 16
  ]

  unfoldable pub format_applied_at : Time → String
  format_applied_at t = if nat_eq t 0 then "" else digest.format t

  unfoldable pub collision_entry : ℕ → PersistedRewrite → String → CollisionEntry
  unfolding envelope_fingerprint format_applied_at envelope_target entry_at
  collision_entry position pr effect = record {
    append_position = position;
    applied_at = format_applied_at (entry_at pr);
    rewrite_type = rewrite_name pr.envelope.rewrite_type;
    actor = pr.envelope.actor;
    target_urn = envelope_target pr.envelope;
    fingerprint = envelope_fingerprint pr.envelope;
    fold_effect = effect;
  }
