-- ===== src/Tests/Restarts.antt =====
-- A restarted kernel and the graph of causes at concrete inputs.
use mathlib.Core.List.{Memᴰ}
use mathlib.Core.List.Memᴰ
use moos_kernel.Prelude.{◌+◌, ◌≡◌, refl, true, none, some, List, [], ◌∷◌, get, put, copy_map}
use moos_kernel.Graph.{Envelope, PersistedRewrite, str, null, Node}
use moos_kernel.Graph.State.{clone}
use moos_kernel.Fold.{evaluate_at, add_node}
use moos_kernel.Fold.Replay.{replay_loop, replay}
use moos_kernel.Kernel.{Host, Runtime}
use moos_kernel.Kernel.Commit.{validate, persisted_rewrite, commit}
use moos_kernel.Kernel.Apply.{apply_staged}
use moos_kernel.Kernel.Folded.{IsFolded}
use moos_kernel.Kernel.Folded.Restart.{mem_store, mem_store-IsStore}
use moos_kernel.Kernel.Staging.{Texts, stage_hook_proposal_pair}
use moos_kernel.Reactive.Engine.{Firing, reactor, t_hook}
use moos_kernel.Kernel.Reactions.{route_firings, with_fallback_spec, stage_event_hook}
use moos_kernel.Kernel.Folded.Writers.{Grown}
use moos_kernel.Kernel.Folded.Once.{stages_once}
use moos_kernel.Kernel.Folded.Reacting.{route_firings-Grown}
use moos_kernel.Tests.Samples.{adding, entry, pair_log, couple, grammar}

abbrev disk : Host (List PersistedRewrite)
disk = record { store = mem_store; time_at = λ n. 100 + n; print_value = λ v. "" }

-- A log whose last entry has not the largest number.
abbrev uneven : List PersistedRewrite
uneven = entry 9 (adding "alice" "user" []) ∷ entry 3 (adding "bob" "agent" []) ∷ []

abbrev restarted : Runtime (List PersistedRewrite)
restarted = record {
  state = (replay uneven).0;
  log = uneven;
  stored = uneven;
  registry = none;
  log_seq = 9;
  subscribers = [];
  readings = 0;
}

abbrev next_one : PersistedRewrite
next_one = persisted_rewrite (adding "t1" "task" []) 100 10

-- Causes.
abbrev paired : Runtime (List PersistedRewrite)
paired = record {
  state = couple;
  log = pair_log;
  stored = pair_log;
  registry = some grammar;
  log_seq = 2;
  subscribers = [];
  readings = 0;
}

paired-IsFolded : IsFolded disk paired
unfolding replay replay_loop evaluate_at get clone copy_map add_node put
paired-IsFolded = record { folded = refl; durable = refl }

-- Reactions.
abbrev texts : Texts
texts = record { decimal = λ n. "7"; format = λ t. "now"; to_json = λ env. some (str env.node_urn) }

abbrev firings : List Firing
firings =
    record { proposal = adding "t1" "task" []; source_hook = ""; kind = reactor }
    ∷ record { proposal = adding "t2" "task" []; source_hook = "alice"; kind = t_hook }
    ∷ []

route_firings-Grown_example : Grown disk paired (
    route_firings disk texts "urn:moos:kernel:sweep" paired firings
      (entry 2 (adding "bob" "agent" []))
      0)
route_firings-Grown_example =
    route_firings-Grown disk mem_store-IsStore texts "urn:moos:kernel:sweep"
      (entry 2 (adding "bob" "agent" [])) firings paired 0 paired-IsFolded

abbrev alice_hook : Node
alice_hook = record {
  urn = "alice";
  type_id = "user";
  properties = [];
  created_at = 1;
  version = 1;
}

abbrev mark : Envelope
mark =
    with_fallback_spec alice_hook
      (stage_hook_proposal_pair texts alice_hook 5 "urn:moos:kernel:sweep" "urn:moos:proposal:p1"
        "now" (some null)).1

marks : apply_staged disk paired mark ≡ ((apply_staged disk paired mark).0, true)
unfolding apply_staged with_fallback_spec stage_hook_proposal_pair commit validate replay
    replay_loop evaluate_at get clone copy_map add_node put moos_kernel.Fold.new_node
marks = refl

abbrev alice_fires : Firing
alice_fires = record { proposal = adding "t2" "task" []; source_hook = "alice"; kind = t_hook }

stages_once_example :
    stage_event_hook disk texts "urn:moos:kernel:sweep"
      (apply_staged disk paired mark).0
      alice_fires
      (entry 2 (adding "bob" "agent" []))
      0
    ≡ (apply_staged disk paired mark).0
stages_once_example =
    stages_once disk mem_store-IsStore texts "urn:moos:kernel:sweep" paired
      (apply_staged disk paired mark).0 alice_hook 5 "urn:moos:proposal:p1" "now" null alice_fires
      (entry 2 (adding "bob" "agent" [])) 0 paired-IsFolded marks refl
