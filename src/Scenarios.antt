-- ===== src/Scenarios.antt =====
-- Runs of the model at concrete inputs: a task with a child, its claim by a worker and its failure.
pub mod Runs
pub mod Services
pub mod More
pub mod Api
pub mod Limits
pub mod Messages
use distributed_task_platfor.Prelude.{
  ℕ, ◌≤◌, arith, All, length, select, insert_by, order_by, String, ◌≡◌, refl, Option, none, some,
  List, [], ◌∷◌, false,
}
use distributed_task_platfor.Model.Status.{Status, Priority, created, running, failed, task_failed}
use distributed_task_platfor.Model.Rows.{Task, OutboxEvent, failure}
use distributed_task_platfor.Model.Settings.{Settings, default_settings}
use distributed_task_platfor.Model.Db.{Db, get_task, put_task, add_outbox}
use distributed_task_platfor.Model.Result.{Result, ok, err}
use distributed_task_platfor.Tasks.{
  TaskSpec, new_task, create_task, insert_task, place_task, enqueue,
}
use distributed_task_platfor.Dependencies.{
  register_dependencies, dedup_seen, ensure_no_cycle, add_edges, finds_cycle, push,
  register_if_found,
}
use distributed_task_platfor.StatusChange.{
  set_status, after_change, change, record_event, assign_status, advance_children, advance_each,
  advance_child, all_parents_succeeded, cancel_blocked, unblock, children_of, parents_of,
}
use distributed_task_platfor.Webhooks.Enqueue.{enqueue_for, enqueue_each, enqueue_delivery, matches}
use distributed_task_platfor.Attempts.{
  try_acquire_lease, start_attempt, count_attempt, lease_is_free, record_failure, finish_attempt,
  fail_task, give_up, modify_task, schedule_retry, set_held,
}
use distributed_task_platfor.StatusChange.Total.{blocked}
use distributed_task_platfor.Outbox.{is_pending, pending_events}
use distributed_task_platfor.Worker.{Execution, unknown_task_type, claim, finish}
use distributed_task_platfor.Invariant.Reach.{
  Reach, here, next, creates, claims, finishes, empty_db,
}

-- The database that is returned, or the empty one.
abbrev returned_db : Result Db → Db
returned_db (ok db) = db
returned_db (err e) = empty_db

abbrev committed_db : Result (Option Db) → Db
committed_db (ok (some db)) = db
committed_db (ok none) = empty_db
committed_db (err e) = empty_db

abbrev pub email : List ℕ → TaskSpec
email parents = record {
  task_type = "email";
  payload = "{}";
  priority = Priority.normal;
  max_attempts = none;
  idempotency_key = none;
  created_by = none;
  schedule_at = none;
  naive = false;
  batch_id = some 1;
  depends_on = parents;
}

abbrev pub one_task : Db
one_task = returned_db (create_task default_settings 3 100 (email []) empty_db)

abbrev pub with_child : Db
with_child = returned_db (create_task default_settings 3 200 (email (1 ∷ [])) one_task)

abbrev pub claimed : Db
claimed = committed_db (claim default_settings 3 300 "worker-1" 1 with_child)

-- The row of the first task while it runs.
abbrev row_or_new : Option Task → Task
row_or_new (some t) = t
row_or_new none = new_task default_settings 0 (email []) 1

abbrev pub running_task : Task
running_task = row_or_new (get_task 1 claimed)

abbrev pub given_up : Db
given_up = returned_db (
    finish default_settings 3 400 "worker-1" 1 1 running_task (unknown_task_type "no handler")
      claimed)

pub one_task_created : create_task default_settings 3 100 (email []) empty_db ≡ ok one_task
unfolding create_task insert_task new_task place_task enqueue register_dependencies dedup_seen
    ensure_no_cycle add_edges finds_cycle push register_if_found set_status after_change add_outbox
    change enqueue_for enqueue_each enqueue_delivery matches put_task get_task record_event
    assign_status advance_children advance_each advance_child all_parents_succeeded cancel_blocked
    unblock children_of parents_of
one_task_created = refl

pub child_created : create_task default_settings 3 200 (email (1 ∷ [])) one_task ≡ ok with_child
unfolding create_task insert_task new_task place_task enqueue register_dependencies dedup_seen
    ensure_no_cycle add_edges finds_cycle push register_if_found set_status after_change add_outbox
    change enqueue_for enqueue_each enqueue_delivery matches put_task get_task record_event
    assign_status advance_children advance_each advance_child all_parents_succeeded cancel_blocked
    unblock children_of parents_of
child_created = refl

pub task_claimed : claim default_settings 3 300 "worker-1" 1 with_child ≡ ok (some claimed)
unfolding create_task insert_task new_task place_task enqueue register_dependencies dedup_seen
    ensure_no_cycle add_edges finds_cycle push register_if_found set_status after_change add_outbox
    change enqueue_for enqueue_each enqueue_delivery matches put_task get_task record_event
    assign_status advance_children advance_each advance_child all_parents_succeeded cancel_blocked
    unblock children_of parents_of claim try_acquire_lease start_attempt count_attempt lease_is_free
task_claimed = refl

pub task_given_up :
    finish default_settings 3 400 "worker-1" 1 1 running_task
      (unknown_task_type "no handler")
      claimed
    ≡ ok given_up
unfolding create_task insert_task new_task place_task enqueue register_dependencies dedup_seen
    ensure_no_cycle add_edges finds_cycle push register_if_found set_status after_change add_outbox
    change enqueue_for enqueue_each enqueue_delivery matches put_task get_task record_event
    assign_status advance_children advance_each advance_child all_parents_succeeded cancel_blocked
    unblock children_of parents_of claim try_acquire_lease start_attempt count_attempt lease_is_free
    finish record_failure finish_attempt fail_task give_up modify_task schedule_retry set_held
task_given_up = refl

pub Reach-one : Reach default_settings empty_db one_task
Reach-one = next here (creates 3 100 (email []) one_task_created)

pub Reach-child : Reach default_settings empty_db with_child
Reach-child = next Reach-one (creates 3 200 (email (1 ∷ [])) child_created)

pub Reach-claimed : Reach default_settings empty_db claimed
Reach-claimed = next Reach-child (claims 3 300 "worker-1" 1 task_claimed)

pub Reach-given_up : Reach default_settings empty_db given_up
Reach-given_up =
    next Reach-claimed
      (finishes 3 400 "worker-1" 1 1 running_task (unknown_task_type "no handler") task_given_up)

pub running_task_found : get_task running_task.id claimed ≡ some running_task
unfolding create_task insert_task new_task place_task enqueue register_dependencies dedup_seen
    ensure_no_cycle add_edges finds_cycle push register_if_found set_status after_change add_outbox
    change enqueue_for enqueue_each enqueue_delivery matches put_task get_task record_event
    assign_status advance_children advance_each advance_child all_parents_succeeded cancel_blocked
    unblock children_of parents_of claim try_acquire_lease start_attempt count_attempt lease_is_free
running_task_found = refl

pub running_task_runs : running_task.status ≡ running
unfolding create_task insert_task new_task place_task enqueue register_dependencies dedup_seen
    ensure_no_cycle add_edges finds_cycle push register_if_found set_status after_change add_outbox
    change enqueue_for enqueue_each enqueue_delivery matches put_task get_task record_event
    assign_status advance_children advance_each advance_child all_parents_succeeded cancel_blocked
    unblock children_of parents_of claim try_acquire_lease start_attempt count_attempt lease_is_free
running_task_runs = refl

-- What a failure of the first task would leave in `created`, and what is in `created` while it runs.
pub still_blocked : blocked (change 400 running_task failed task_failed (failure 1 "x") claimed) ≤ 1
unfolding create_task insert_task new_task place_task enqueue register_dependencies dedup_seen
    ensure_no_cycle add_edges finds_cycle push register_if_found set_status after_change add_outbox
    change enqueue_for enqueue_each enqueue_delivery matches put_task get_task record_event
    assign_status advance_children advance_each advance_child all_parents_succeeded cancel_blocked
    unblock children_of parents_of claim try_acquire_lease start_attempt count_attempt lease_is_free
still_blocked = omega arith

pub blocked_child : blocked claimed ≤ 1
unfolding create_task insert_task new_task place_task enqueue register_dependencies dedup_seen
    ensure_no_cycle add_edges finds_cycle push register_if_found set_status after_change add_outbox
    change enqueue_for enqueue_each enqueue_delivery matches put_task get_task record_event
    assign_status advance_children advance_each advance_child all_parents_succeeded cancel_blocked
    unblock children_of parents_of claim try_acquire_lease start_attempt count_attempt lease_is_free
blocked_child = omega arith

pub no_cycle : ensure_no_cycle 3 (2 ∷ []) with_child ≡ ok tt
unfolding create_task insert_task new_task place_task enqueue register_dependencies dedup_seen
    ensure_no_cycle add_edges finds_cycle push register_if_found set_status after_change add_outbox
    change enqueue_for enqueue_each enqueue_delivery matches put_task get_task record_event
    assign_status advance_children advance_each advance_child all_parents_succeeded cancel_blocked
    unblock children_of parents_of claim try_acquire_lease start_attempt count_attempt lease_is_free
no_cycle = refl

-- A broker that takes every message.
abbrev pub accepting : OutboxEvent → Option String
accepting o = none

pub few_messages : length (select is_pending one_task.outbox) ≤ 10
unfolding create_task insert_task new_task place_task enqueue register_dependencies dedup_seen
    ensure_no_cycle add_edges finds_cycle push register_if_found set_status after_change add_outbox
    change enqueue_for enqueue_each enqueue_delivery matches put_task get_task record_event
    assign_status advance_children advance_each advance_child all_parents_succeeded cancel_blocked
    unblock children_of parents_of claim try_acquire_lease start_attempt count_attempt lease_is_free
few_messages = omega arith

pub all_taken : All (λ o. accepting o ≡ none) (pending_events 10 one_task)
unfolding create_task insert_task new_task place_task enqueue register_dependencies dedup_seen
    ensure_no_cycle add_edges finds_cycle push register_if_found set_status after_change add_outbox
    change enqueue_for enqueue_each enqueue_delivery matches put_task get_task record_event
    assign_status advance_children advance_each advance_child all_parents_succeeded cancel_blocked
    unblock children_of parents_of claim try_acquire_lease start_attempt count_attempt lease_is_free
    pending_events insert_by order_by
all_taken = (refl, tt)

pub running_task_unfinished : running_task.finished_at ≡ none
unfolding create_task insert_task new_task place_task enqueue register_dependencies dedup_seen
    ensure_no_cycle add_edges finds_cycle push register_if_found set_status after_change add_outbox
    change enqueue_for enqueue_each enqueue_delivery matches put_task get_task record_event
    assign_status advance_children advance_each advance_child all_parents_succeeded cancel_blocked
    unblock children_of parents_of claim try_acquire_lease start_attempt count_attempt lease_is_free
running_task_unfinished = refl
