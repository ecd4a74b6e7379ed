-- ===== src/Tests/Folds.antt =====
-- The graph and the fold at concrete inputs.
use moos_kernel.Prelude.{
  ◌≡◌, ◌≢◌, refl, ◌↔◌, ◌⊎◌, none, some, List, [], ◌∷◌, ◌++◌, ok, err, get, put, copy_map, length,
  arith,
}
use moos_kernel.Graph.{Envelope, EvalResult, PersistedRewrite, GraphState, immutable}
use moos_kernel.Graph.State.{clone, rebuild, new_graph_state}
use moos_kernel.Graph.Consistent.{IsConsistent}
use moos_kernel.Graph.Copies.{rebuild-IsConsistent}
use moos_kernel.Fold.{
  node_not_found, version_conflict, node_result, relation_result, next_version, add_node,
  add_relation, write_property, evaluate_in_place, evaluate_at,
}
use moos_kernel.Fold.Effect.{Effect, adds, evaluate_iff}
use moos_kernel.Fold.Evaluate.{evaluate_at-IsConsistent}
use moos_kernel.Fold.Identity.{Later, evaluate_at-Later}
use moos_kernel.Fold.Versions.{IsMutation, mutate_checks_version, mutate_once}
use moos_kernel.Fold.Program.{ProgramError, stamps, evaluate_program_at}
use moos_kernel.Fold.Atomic.{Run, evaluate_program_iff, evaluate_program_atomic}
use moos_kernel.Fold.Replay.{
  ReplayError, is_idempotent_skip, replay_applied_at, replay_loop, replay,
}
use moos_kernel.Fold.Log.{replay-IsConsistent, replay-extend}
use moos_kernel.Fold.Halt.{StopsAt, replay_error}
use moos_kernel.Fold.Duplicates.{replay_duplicate_add}
use moos_kernel.Tests.Samples.{
  adding, joining, setting, entry, title, status, task, sample_log, sample, sample-IsConsistent,
  replays, has_task,
}

rebuild-IsConsistent_example :
    IsConsistent (rebuild sample)
    × ((rebuild sample).nodes ≡ sample.nodes)
    × ((rebuild sample).relations ≡ sample.relations)
rebuild-IsConsistent_example = rebuild-IsConsistent sample sample-IsConsistent.is_graph

-- One rewrite.
abbrev more_work : Envelope
more_work = adding "t2" "task" (("title", title) ∷ [])

evaluate_iff_example :
    (evaluate_in_place sample more_work 9 ≡ ok (add_node sample more_work 9, node_result "t2"))
    ↔ Effect sample more_work 9 (add_node sample more_work 9) (node_result "t2")
evaluate_iff_example =
    evaluate_iff sample more_work 9 (add_node sample more_work 9) (node_result "t2")

evaluate_at-IsConsistent_example : IsConsistent (evaluate_at sample more_work 9).0
evaluate_at-IsConsistent_example = evaluate_at-IsConsistent sample more_work 9 sample-IsConsistent

evaluate_at-Later_example : Later sample (evaluate_at sample (setting "t1" "status" "done" 0) 9).0
evaluate_at-Later_example =
    evaluate_at-Later sample (setting "t1" "status" "done" 0) 9 sample-IsConsistent

-- Versions.
abbrev finish : Envelope
finish = setting "t1" "status" "done" 1

finishes : IsMutation sample finish task status
unfolding get immutable
finishes = record {
  kind = refl;
  actor = refl;
  target = refl;
  field = refl;
  at = has_task;
  present = refl;
  live = refl;
}

not_zero : finish.expected_version ≢ 0
not_zero = λ e. absurd (ground arith)

mutate_checks_version_example :
    ((task.version ≡ finish.expected_version)
      → evaluate_in_place sample finish 9
        ≡ ok (write_property sample finish task status, node_result "t1"))
    × ((task.version ≢ finish.expected_version)
        → evaluate_in_place sample finish 9 ≡ err (version_conflict 1 1))
mutate_checks_version_example = mutate_checks_version sample finish task status 9 finishes not_zero

finished :
    evaluate_in_place sample finish 9
    ≡ ok (write_property sample finish task status, node_result "t1")
finished = mutate_checks_version_example.0 refl

mutate_once_example :
    evaluate_in_place (write_property sample finish task status) finish 10
    ≡ err (version_conflict 1 (next_version 1))
mutate_once_example =
    mutate_once sample (write_property sample finish task status) finish task status 9 10
      (node_result "t1") finishes not_zero (omega arith) finished

-- Batches.
abbrev batch : List Envelope
batch = more_work ∷ joining "r3" "WF05" "t2" "part-of" "t1" "has-part" ∷ []

abbrev after_batch : GraphState
after_batch = (evaluate_program_at (λ i. i) sample batch (9 ∷ 10 ∷ [])).0

evaluate_program_iff_example :
    (evaluate_program_at (λ i. i) sample batch (9 ∷ 10 ∷ [])
      ≡ (after_batch, ok (node_result "t2" ∷ relation_result "r3" ∷ [])))
    ↔ Run
        (stamps (λ i. i) batch (9 ∷ 10 ∷ []))
        0
        sample
        batch
        after_batch
        (node_result "t2" ∷ relation_result "r3" ∷ [])
evaluate_program_iff_example =
    evaluate_program_iff (λ i. i) sample batch (9 ∷ 10 ∷ []) sample-IsConsistent after_batch
      (node_result "t2" ∷ relation_result "r3" ∷ []) refl

evaluate_program_atomic_example :
    ((e : ProgramError) × (evaluate_program_at (λ i. i) sample batch (9 ∷ 10 ∷ [])
        ≡ (sample, err e)))
    ⊎ ((s' : GraphState) × (rs : List EvalResult) × (evaluate_program_at
            (λ i. i)
            sample
            batch
            (9 ∷ 10 ∷ [])
          ≡ (s', ok rs))
        × IsConsistent s'
        × Later sample s'
        × (length rs ≡ length batch))
evaluate_program_atomic_example =
    evaluate_program_atomic (λ i. i) sample batch (9 ∷ 10 ∷ []) sample-IsConsistent

-- The log.
replay-IsConsistent_example :
    IsConsistent (replay (sample_log ++ entry 9 more_work ∷ [])).0
    × Later (replay sample_log).0 (replay (sample_log ++ entry 9 more_work ∷ [])).0
replay-IsConsistent_example = replay-IsConsistent sample_log (entry 9 more_work ∷ [])

no_t2 : get "t2" sample.nodes ≡ none
unfolding replay replay_loop evaluate_at get clone copy_map add_node put add_relation
no_t2 = refl

replay-extend_example :
    replay (sample_log ++ entry 9 more_work ∷ []) ≡ (add_node sample more_work 9, none)
unfolding replay_applied_at
replay-extend_example =
    replay-extend sample_log sample (entry 9 more_work) (add_node sample more_work 9)
      (node_result "t2") replays (adds refl refl refl refl no_t2 refl refl)

abbrev head : PersistedRewrite
head = entry 1 (adding "alice" "user" [])

abbrev tail : List PersistedRewrite
tail = entry 2 (adding "bob" "agent" []) ∷ []

abbrev dangling : PersistedRewrite
dangling = entry 9 (joining "r9" "WF05" "alice" "part-of" "nobody" "has-part")

abbrev one : GraphState
one = (replay (head ∷ [])).0

abbrev stopped : ReplayError
stopped = record { seq = 9; index = 1; cause = node_not_found "nobody" }

stops : replay (head ∷ dangling ∷ []) ≡ (one, some stopped)
unfolding replay replay_loop evaluate_at get clone copy_map add_node put add_relation
    is_idempotent_skip
stops = refl

replay_error_example :
    (before : List PersistedRewrite) × (pr : PersistedRewrite) × (after : List PersistedRewrite)
    × StopsAt 0 new_graph_state (head ∷ dangling ∷ []) one stopped before pr after
replay_error_example = replay_error (head ∷ dangling ∷ []) one stopped stops

abbrev two : GraphState
two = (replay (head ∷ tail)).0

replays_two : replay (([] ++ head ∷ []) ++ tail) ≡ (two, none)
unfolding replay replay_loop evaluate_at get clone copy_map add_node put add_relation
replays_two = refl

replay_duplicate_add_example : replay ((([] ++ head ∷ []) ++ tail) ++ head ∷ []) ≡ (two, none)
replay_duplicate_add_example = replay_duplicate_add [] tail head two refl replays_two
