-- ===== src/Tests/Samples.antt =====
-- The log that the tests share: two principals, a session that seats one of them, the superadmin role
-- given to her, a task with a fixed title, and one cause.
use moos_kernel.Prelude.{
  ℕ, String, ◌≡◌, refl, false, none, some, List, [], ◌∷◌, Map, get, put, copy_map,
}
use moos_kernel.Graph.{
  Urn, TypeId, add, link, mutate, str, Property, Envelope, no_envelope, PersistedRewrite, Node,
  GraphState,
}
use moos_kernel.Graph.Consistent.{IsConsistent}
use moos_kernel.Graph.State.{clone}
use moos_kernel.Fold.{evaluate_at, add_node, add_relation, new_node}
use moos_kernel.Fold.Replay.{replay_loop, replay_applied_at, replay}
use moos_kernel.Fold.Log.{replayed-IsConsistent}
use moos_kernel.Operad.{PropertySpec, NodeTypeSpec, RewriteCategorySpec, Registry}

abbrev pub a_property : String → String → Property
a_property text mutability = record {
  value = str text;
  mutability = mutability;
  authority_scope = "";
  stratum_origin = 2;
  validation_type = "";
}

abbrev pub adding : Urn → TypeId → Map Property → Envelope
adding urn type_id properties = record no_envelope {
  rewrite_type = add;
  actor = "alice";
  node_urn = urn;
  type_id = type_id;
  properties = properties;
}

abbrev pub joining : Urn → String → Urn → String → Urn → String → Envelope
joining urn category src src_port tgt tgt_port = record no_envelope {
  rewrite_type = link;
  actor = "alice";
  relation_urn = urn;
  src_urn = src;
  src_port = src_port;
  tgt_urn = tgt;
  tgt_port = tgt_port;
  rewrite_category = category;
}

abbrev pub setting : Urn → String → String → ℕ → Envelope
setting target field text version = record no_envelope {
  rewrite_type = mutate;
  actor = "alice";
  target_urn = target;
  field = field;
  new_value = str text;
  rewrite_category = "WF05";
  expected_version = version;
}

abbrev pub entry : ℕ → Envelope → PersistedRewrite
entry seq env = record { envelope = env; applied_at = seq; timestamp = seq; log_seq = seq }

abbrev pub title : Property
title = a_property "write" "immutable"

abbrev pub status : Property
status = a_property "open" "mutable"

abbrev pub sample_log : List PersistedRewrite
sample_log =
    entry 1 (adding "alice" "user" [])
    ∷ entry 2 (adding "bob" "agent" [])
    ∷ entry 3 (adding "s1" "session" [])
    ∷ entry 4 (joining "r1" "WF19" "s1" "has-occupant" "alice" "is-occupant-of")
    ∷ entry 5 (adding "urn:moos:role:superadmin" "role" [])
    ∷ entry 6 (joining "r2" "WF02" "alice" "governs" "urn:moos:role:superadmin" "governed-by")
    ∷ entry 7 (adding "t1" "task" (("title", title) ∷ ("status", status) ∷ []))
    ∷ entry 8 (joining "c1" "WF21" "alice" "causes" "bob" "caused-by")
    ∷ []

abbrev pub sample : GraphState
sample = (replay sample_log).0

pub sample-IsConsistent : IsConsistent sample
sample-IsConsistent = replayed-IsConsistent sample_log

abbrev pub task : Node
task = record {
  urn = "t1";
  type_id = "task";
  properties = ("title", title) ∷ ("status", status) ∷ [];
  created_at = 7;
  version = 1;
}

pub replays : replay sample_log ≡ (sample, none)
unfolding replay replay_loop evaluate_at get clone copy_map add_node put add_relation
replays = refl

pub has_task : get "t1" sample.nodes ≡ some task
unfolding replay replay_loop evaluate_at get clone copy_map add_node put add_relation new_node
    replay_applied_at
has_task = refl

-- A smaller world: a session in which alice sits, and bob.
abbrev pub seat_log : List PersistedRewrite
seat_log =
    entry 1 (adding "alice" "user" [])
    ∷ entry 2 (adding "bob" "agent" [])
    ∷ entry 3 (adding "s1" "session" [])
    ∷ entry 4 (joining "r1" "WF19" "s1" "has-occupant" "alice" "is-occupant-of")
    ∷ []

abbrev pub seated : GraphState
seated = (replay seat_log).0

pub seated-IsConsistent : IsConsistent seated
seated-IsConsistent = replayed-IsConsistent seat_log

pub seat_replays : replay seat_log ≡ (seated, none)
unfolding replay replay_loop evaluate_at get clone copy_map add_node put add_relation
seat_replays = refl

-- Two principals without a relation.
abbrev pub pair_log : List PersistedRewrite
pair_log = entry 1 (adding "alice" "user" []) ∷ entry 2 (adding "bob" "agent" []) ∷ []

abbrev pub couple : GraphState
couple = (replay pair_log).0

pub couple-IsConsistent : IsConsistent couple
couple-IsConsistent = replayed-IsConsistent pair_log

-- A grammar with a layer of views above the tasks.
abbrev pub a_type : TypeId → String → Map PropertySpec → NodeTypeSpec
a_type id stratum properties = record {
  id = id;
  stratum = stratum;
  urn_pattern = "";
  ports = record { out = none; inward = none; self = [] };
  properties = properties;
}

abbrev pub a_category : String → String → String → RewriteCategorySpec
a_category id src_port tgt_port = record {
  id = id;
  name = "";
  allowed_rewrites = link ∷ mutate ∷ [];
  src_types = [];
  tgt_types = [];
  src_port = src_port;
  tgt_port = tgt_port;
  additional_port_pairs = [];
  authority = "";
  mutate_scope = [];
  sync_mode = "";
}

abbrev pub grammar : Registry
grammar = record {
  version = "3.14";
  node_types = ("task", a_type "task" "S2" []) ∷ ("view", a_type "view" "S4" []) ∷ [];
  rewrite_categories =
      ("WF05", a_category "WF05" "part-of" "has-part")
      ∷ ("WF21", a_category "WF21" "causes" "caused-by")
      ∷ [];
  port_color_matrix = [];
  port_colors = some (("part-of", "compute") ∷ ("has-part", "compute") ∷ []);
  port_color_source = "";
  ports_generated = false;
  ports_drift = [];
}
