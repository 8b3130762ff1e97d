-- ===== src/Scenarios/Messages.antt =====
-- A message that is delivered twice, at the run of the parent module.
use distributed_task_platfor.Prelude.{
  ◌⊎◌, ℕ, ◌≤◌, String, ◌≡◌, refl, true, false, Option, none, some, List, [], ◌∷◌, arith,
}
use distributed_task_platfor.Model.Settings.{default_settings}
use distributed_task_platfor.Model.Status.{running}
use distributed_task_platfor.Model.Rows.{Task}
use distributed_task_platfor.Model.Db.{Db, get_task, put_task, add_outbox}
use distributed_task_platfor.Tasks.{
  compute_retry_delay, new_task, create_task, insert_task, place_task, enqueue,
}
use distributed_task_platfor.Dependencies.{
  register_dependencies, dedup_seen, ensure_no_cycle, add_edges, finds_cycle, push,
  register_if_found,
}
use distributed_task_platfor.StatusChange.{
  set_status, after_change, change, record_event, assign_status, advance_children, advance_each,
  advance_child, all_parents_succeeded, cancel_blocked, unblock, children_of, parents_of,
}
use distributed_task_platfor.StatusChange.Total.{blocked}
use distributed_task_platfor.Webhooks.Enqueue.{enqueue_for, enqueue_each, enqueue_delivery, matches}
use distributed_task_platfor.Attempts.{
  try_acquire_lease, start_attempt, count_attempt, lease_is_free, renew_lease, record_failure,
  finish_attempt, fail_task, give_up, modify_task, set_held,
}
use distributed_task_platfor.Worker.{claim, finish}
use distributed_task_platfor.Worker.Messages.{
  Json, object, Answer, acked, Delivery, task_id_of, handle_message,
}
use distributed_task_platfor.Worker.Redelivery.{redelivery_ignored}
use distributed_task_platfor.Executors.{
  Handler, amount, registry, get_handler, register, echo, sleep, fail,
}
use distributed_task_platfor.Invariant.Reach.{Reach, here, next, creates, renews, empty_db}
use distributed_task_platfor.Invariant.{legal, status_after, IsSettled}
use distributed_task_platfor.Invariant.Service.{Life, started, handled, stepped, worker_consistent}
use distributed_task_platfor.Scenarios.{
  one_task_created, child_created, email, with_child, claimed, running_task, task_claimed,
  Reach-claimed, row_or_new,
}

abbrev task_one : String → Option String
task_one key = some "1"

abbrev loads : String → Option Json
loads body = some (object task_one)

abbrev int : String → Option ℕ
int text = some 1

abbrev handlers : List Handler
handlers =
    registry (λ key payload. none) (λ text. some (amount 1)) (λ text. text) (λ n. "1")
      (λ fields. "{}")

abbrev first : Delivery
first = record {
  worker = "worker-1";
  handlers = handlers;
  claimed_at = 300;
  ended_at = 400;
  overran = false;
  meanwhile = λ db. (renew_lease 350 1 "worker-1" default_settings.task_lease db).1;
}

abbrev second : Delivery
second = record {
  worker = "worker-2";
  handlers = [];
  claimed_at = 500;
  ended_at = 600;
  overran = true;
  meanwhile = λ db. db;
}

abbrev renewed : Db
renewed = first.meanwhile claimed

Reach-renewed : Reach default_settings empty_db renewed
Reach-renewed = next Reach-claimed (renews 350 1 "worker-1" refl)

abbrev renewed_task : Task
renewed_task = row_or_new (get_task 1 renewed)

renewed_found : get_task 1 renewed ≡ some renewed_task
unfolding create_task insert_task new_task place_task enqueue register_dependencies dedup_seen
    ensure_no_cycle add_edges finds_cycle push register_if_found set_status after_change add_outbox
    change enqueue_for enqueue_each enqueue_delivery matches put_task get_task record_event
    assign_status advance_children advance_each advance_child all_parents_succeeded cancel_blocked
    unblock children_of parents_of claim try_acquire_lease start_attempt count_attempt lease_is_free
    renew_lease
renewed_found = refl

claimed_found : get_task 1 claimed ≡ some running_task
unfolding create_task insert_task new_task place_task enqueue register_dependencies dedup_seen
    ensure_no_cycle add_edges finds_cycle push register_if_found set_status after_change add_outbox
    change enqueue_for enqueue_each enqueue_delivery matches put_task get_task record_event
    assign_status advance_children advance_each advance_child all_parents_succeeded cancel_blocked
    unblock children_of parents_of claim try_acquire_lease start_attempt count_attempt lease_is_free
    renew_lease
claimed_found = refl

renewed_runs : renewed_task.status ≡ running
unfolding create_task insert_task new_task place_task enqueue register_dependencies dedup_seen
    ensure_no_cycle add_edges finds_cycle push register_if_found set_status after_change add_outbox
    change enqueue_for enqueue_each enqueue_delivery matches put_task get_task record_event
    assign_status advance_children advance_each advance_child all_parents_succeeded cancel_blocked
    unblock children_of parents_of claim try_acquire_lease start_attempt count_attempt lease_is_free
    renew_lease
renewed_runs = refl

one_blocked : blocked renewed ≤ 2
unfolding create_task insert_task new_task place_task enqueue register_dependencies dedup_seen
    ensure_no_cycle add_edges finds_cycle push register_if_found set_status after_change add_outbox
    change enqueue_for enqueue_each enqueue_delivery matches put_task get_task record_event
    assign_status advance_children advance_each advance_child all_parents_succeeded cancel_blocked
    unblock children_of parents_of claim try_acquire_lease start_attempt count_attempt lease_is_free
    renew_lease
one_blocked = omega arith

body_read : task_id_of loads int "unknown" "late" "{\"task_id\": 1}" ≡ some 1
unfolding task_id_of
body_read = refl

abbrev after_first : Db × Answer
after_first =
    handle_message loads int "unknown" "late" default_settings 3 first "{\"task_id\": 1}" with_child

redelivery_ignored_example :
    ((after_first.1 ≡ acked) ⊎ (compute_retry_delay default_settings running_task.attempts ≡ none))
    × (handle_message loads int "unknown" "late" default_settings 3 second "{\"task_id\": 1}"
          after_first.0
        ≡ (after_first.0, acked))
redelivery_ignored_example =
    redelivery_ignored loads int "unknown" "late" default_settings 2 3 1 first second
      "{\"task_id\": 1}" with_child claimed running_task renewed_task body_read task_claimed
      claimed_found Reach-renewed renewed_found renewed_runs one_blocked

abbrev ended : Db
ended = after_first.0

abbrev ended_task : Task
ended_task = row_or_new (get_task 1 ended)

ended_found : get_task 1 ended ≡ some ended_task
unfolding create_task insert_task new_task place_task enqueue register_dependencies dedup_seen
    ensure_no_cycle add_edges finds_cycle push register_if_found set_status after_change add_outbox
    change enqueue_for enqueue_each enqueue_delivery matches put_task get_task record_event
    assign_status advance_children advance_each advance_child all_parents_succeeded cancel_blocked
    unblock children_of parents_of claim try_acquire_lease start_attempt count_attempt lease_is_free
    renew_lease handle_message task_id_of get_handler registry register echo sleep fail finish
    record_failure finish_attempt fail_task give_up modify_task set_held
ended_found = refl

lived : Life default_settings loads int "unknown" "late" empty_db ended
lived =
    handled 3 first "{\"task_id\": 1}"
      (stepped (stepped started (creates 3 100 (email []) one_task_created))
        (creates 3 200 (email (1 ∷ [])) child_created))
      (λ d. next here (renews 350 1 "worker-1" refl)) refl

worker_consistent_example :
    (legal 1 none ended.events ≡ true)
    × (status_after 1 none ended.events ≡ some ended_task.status)
    × IsSettled default_settings ended_task
worker_consistent_example =
    worker_consistent default_settings loads int "unknown" "late" ended 1 ended_task lived
      ended_found
