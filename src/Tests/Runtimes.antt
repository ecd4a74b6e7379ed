-- ===== src/Tests/Runtimes.antt =====
-- The kernel over the in-memory store at concrete inputs.
use moos_kernel.Prelude.{
  ◌+◌, String, ◌≡◌, refl, true, false, some, List, [], ◌∷◌, ok, get, put, copy_map, set_add,
}
use moos_kernel.Graph.{Urn, Value, Envelope, PersistedRewrite}
use moos_kernel.Graph.Index.{bucket, index_insert, index_add_relation_endpoints}
use moos_kernel.Graph.State.{clone, relations_to}
use moos_kernel.Fold.{evaluate_at, add_node, add_relation, new_node, new_relation}
use moos_kernel.Fold.Replay.{replay_loop, replay}
use moos_kernel.Operad.Occupancy.Admin.{IsAdmin}
use moos_kernel.Operad.Session.{
  admin_scope_rewrite, system_internal_envelope, resolve_session_for_envelope,
}
use moos_kernel.Operad.Session.Resolve.{RunsUnder}
use moos_kernel.Kernel.{Host, Runtime}
use moos_kernel.Kernel.Liveness.{check_liveness, check_liveness_admits}
use moos_kernel.Kernel.Apply.{apply_reactive, apply_staged}
use moos_kernel.Kernel.Folded.{IsFolded}
use moos_kernel.Kernel.Folded.Writers.{Grown, emissions-Grown}
use moos_kernel.Kernel.Folded.Restart.{mem_store, mem_store-IsStore}
use moos_kernel.Tests.Samples.{
  adding, setting, seat_log, seated, seated-IsConsistent, seat_replays, grammar,
}

abbrev print : Value → String
print v = ""

abbrev host : Host (List PersistedRewrite)
host = record { store = mem_store; time_at = λ n. 100 + n; print_value = print }

abbrev kernel : Runtime (List PersistedRewrite)
kernel = record {
  state = seated;
  log = seat_log;
  stored = seat_log;
  registry = some grammar;
  log_seq = 4;
  subscribers = ("watch", []) ∷ [];
  readings = 0;
}

kernel-IsFolded : IsFolded host kernel
kernel-IsFolded = record { folded = seat_replays; durable = refl }

abbrev work : Envelope
work = adding "t1" "task" []

emissions-Grown_example :
    Grown host kernel (apply_reactive host kernel work).0
    × Grown host kernel (apply_staged host kernel work).0
emissions-Grown_example = emissions-Grown host mem_store-IsStore kernel work kernel-IsFolded

abbrev batch : List Envelope
batch = work ∷ setting "t1" "status" "open" 0 ∷ []

user_space : system_internal_envelope work ≡ false
unfolding system_internal_envelope
user_space = refl

admitted : check_liveness (some grammar) work seated ≡ ok tt
unfolding check_liveness system_internal_envelope resolve_session_for_envelope admin_scope_rewrite
    replay replay_loop evaluate_at get clone copy_map add_node put add_relation new_node
    relations_to index_add_relation_endpoints bucket index_insert set_add new_relation
admitted = refl

check_liveness_admits_example :
    ((u : Urn) × RunsUnder seated work u)
    × (admin_scope_rewrite grammar work seated ≡ true → IsAdmin seated work.actor)
check_liveness_admits_example =
    check_liveness_admits grammar work seated seated-IsConsistent refl user_space admitted
