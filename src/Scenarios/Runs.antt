-- ===== src/Scenarios/Runs.antt =====
-- The theorems on tasks at the runs of the parent module.
use distributed_task_platfor.Prelude.{
  ℕ, ◌+◌, ◌≤◌, ◌≡◌, refl, true, ◌&&◌, ◌||◌, ◌==◌, ltb, some, none, List, [], ◌∷◌, arith, All, count,
  truncate, is_some, length,
}
use distributed_task_platfor.Model.Status.{created, failed, task_failed}
use distributed_task_platfor.Model.Rows.{Task, failure, TaskDependency}
use distributed_task_platfor.Model.Settings.{default_settings}
use distributed_task_platfor.Model.Db.{get_task}
use distributed_task_platfor.Model.Result.{ok, Returns, Outcome}
use distributed_task_platfor.StatusChange.{
  assign_status, change, set_status, children_of, all_parents_succeeded, parents_of,
}
use distributed_task_platfor.StatusChange.Total.{blocked}
use distributed_task_platfor.StatusChange.Children.{set_status-Returns}
use distributed_task_platfor.StatusChange.Cancelled.{NotBlocked, children_cancelled}
use distributed_task_platfor.StatusChange.Parents.{is_empty, found, unfinished, parents_succeeded}
use distributed_task_platfor.Dependencies.{finds_cycle, rounds, push}
use distributed_task_platfor.Dependencies.Search.{Ancestor, search_ends, cycle_excluded}
use distributed_task_platfor.Tasks.{new_task, compute_retry_delay}
use distributed_task_platfor.Tasks.Blocked.{created_with_parents}
use distributed_task_platfor.Tasks.Retry.{retry_delay_grows}
use distributed_task_platfor.Attempts.{record_failure}
use distributed_task_platfor.Attempts.Failure.{after_failure, or_zero, failure_decides}
use distributed_task_platfor.Scheduler.{orphaned, requeue_orphaned_queued_tasks}
use distributed_task_platfor.Scheduler.Orphans.{orphans_again}
use distributed_task_platfor.Batches.{in_batch, get_progress}
use distributed_task_platfor.Batches.Progress.{progress_partitions}
use distributed_task_platfor.Worker.{claim}
use distributed_task_platfor.Worker.Lease.{claims_exclude}
use distributed_task_platfor.Invariant.{legal, status_after, status_of, IsSettled}
use distributed_task_platfor.Invariant.Reach.{history_replays, rows-IsSettled}
use distributed_task_platfor.Scenarios.{
  email, one_task, with_child, claimed, given_up, child_created, task_claimed, Reach-one,
  Reach-child, Reach-claimed, Reach-given_up, running_task, running_task_found, running_task_runs,
  still_blocked, blocked_child, no_cycle,
}

history_replays_example :
    (legal 2 none given_up.events ≡ true)
    × (status_after 2 none given_up.events ≡ status_of (get_task 2 given_up))
history_replays_example = history_replays default_settings given_up 2 Reach-given_up

rows-IsSettled_example : IsSettled default_settings running_task
rows-IsSettled_example =
    rows-IsSettled default_settings claimed running_task.id running_task Reach-claimed
      running_task_found

set_status-Returns_example :
    Returns
      (λ db'.
        (get_task running_task.id db' ≡ some (assign_status 400 running_task failed))
        × (blocked db'
            ≤ blocked (change 400 running_task failed task_failed (failure 1 "x") claimed)))
      (set_status 2 "task_created" 400 running_task failed task_failed (failure 1 "x") claimed)
set_status-Returns_example =
    set_status-Returns "task_created" 400 1 running_task running_task failed task_failed
      (failure 1 "x") claimed running_task_found (rw running_task_runs refl) still_blocked

children_cancelled_example :
    Returns
      (λ db'. All (λ c. NotBlocked c db') (children_of running_task.id claimed))
      (set_status 2 "task_created" 400 running_task failed task_failed (failure 1 "x") claimed)
children_cancelled_example =
    children_cancelled "task_created" 400 1 running_task failed task_failed (failure 1 "x") claimed
      (rw running_task_runs refl) refl refl still_blocked

parents_succeeded_example : all_parents_succeeded 2 given_up ≡ (
    is_empty (parents_of 2 given_up)
    || (ltb 0 (found (parents_of 2 given_up) given_up.tasks)
        && (unfinished (parents_of 2 given_up) given_up.tasks == 0)))
parents_succeeded_example = parents_succeeded 2 given_up

abbrev loop : List TaskDependency
loop =
    record { parent_task_id = 1; child_task_id = 2 }
    ∷ record { parent_task_id = 2; child_task_id = 1 }
    ∷ []

search_ends_example :
    is_some (finds_cycle (rounds loop (2 ∷ [])) loop 3 [] (push (2 ∷ []) [])) ≡ true
search_ends_example = search_ends loop 3 (2 ∷ [])

cycle_excluded_example : ¬ Ancestor with_child.dependencies 2 3
cycle_excluded_example = cycle_excluded 3 2 (2 ∷ []) with_child no_cycle refl

created_with_parents_example :
    (get_task one_task.next_task_id with_child
      ≡ some (new_task default_settings 200 (email (1 ∷ [])) one_task.next_task_id))
    × ((new_task default_settings 200 (email (1 ∷ [])) one_task.next_task_id).status ≡ created)
    × (with_child.outbox ≡ one_task.outbox)
created_with_parents_example =
    created_with_parents default_settings 3 200 1 [] (email (1 ∷ [])) one_task with_child Reach-one
      refl child_created

retry_delay_grows_example :
    (d : ℕ) × (e : ℕ) × (compute_retry_delay default_settings 1 ≡ some d)
    × (compute_retry_delay default_settings 12 ≡ some e)
    × (d ≤ e)
    × (e ≤ 300_000_000)
retry_delay_grows_example =
    retry_delay_grows default_settings 1 1 12 (omega arith) (omega arith) (omega arith)
      (omega arith) (omega arith)

-- The object of a worker whose lease ran out and whose task was claimed again.
abbrev stale_task : Task
stale_task = record running_task { attempts = 0; last_error = some "lost" }

failure_decides_example :
    Outcome
      (λ db'.
        get_task running_task.id db'
        ≡ some (
            after_failure default_settings 400
              (truncate 2000 "boom")
              true
              (or_zero (compute_retry_delay default_settings 0))
              stale_task
              running_task))
      (compute_retry_delay default_settings 0 ≡ none)
      (record_failure default_settings 2 400 running_task.id 1 stale_task "boom" true claimed)
failure_decides_example =
    failure_decides default_settings 1 400 running_task.id 1 stale_task "boom" true running_task
      claimed running_task_found running_task_runs blocked_child

orphans_again_example :
    ((requeue_orphaned_queued_tasks default_settings 90_000_000 10 one_task).0.tasks
      ≡ one_task.tasks)
    × (length (requeue_orphaned_queued_tasks default_settings 90_000_000 10 one_task).0.outbox
        ≡ length one_task.outbox + length (orphaned default_settings 90_000_000 10 one_task))
    × (orphaned default_settings 90_000_000 10
          (requeue_orphaned_queued_tasks default_settings 90_000_000 10 one_task).0
        ≡ orphaned default_settings 90_000_000 10 one_task)
orphans_again_example = orphans_again default_settings 90_000_000 10 one_task

claims_exclude_example : claim default_settings 3 900_000_000 "worker-2" 1 claimed ≡ ok none
claims_exclude_example =
    claims_exclude default_settings 3 300 3 900_000_000 "worker-1" "worker-2" 1 with_child claimed
      Reach-child task_claimed

progress_partitions_example :
    ((get_progress 1 given_up).total ≡ count (in_batch 1) given_up.tasks)
    × ((get_progress 1 given_up).queued
          + (get_progress 1 given_up).running
          + (get_progress 1 given_up).pending
          + (get_progress 1 given_up).completed
        ≡ (get_progress 1 given_up).total)
progress_partitions_example = progress_partitions 1 given_up
