-- ===== src/Scenarios/More.antt =====
-- Further theorems at concrete inputs: registers, deliveries, batches and access.
use distributed_task_platfor.Prelude.{
  ◌≡◌, refl, true, false, none, some, [], ◌∷◌, ◌++◌, arith, All, count, List,
}
use distributed_task_platfor.Model.Status.{failed, task_failed, task_queued}
use distributed_task_platfor.Model.Rows.{
  Worker, WorkerStatus, WebhookSubscription, WebhookDelivery, failure,
}
use distributed_task_platfor.Model.Settings.{default_settings}
use distributed_task_platfor.Model.Db.{Db, get_task}
use distributed_task_platfor.Model.Result.{err, task_conflict, Returns}
use distributed_task_platfor.Dependencies.{ensure_no_cycle, finds_cycle, push}
use distributed_task_platfor.Dependencies.Found.{Leads, cycle_found}
use distributed_task_platfor.Tasks.{new_task, create_task}
use distributed_task_platfor.Tasks.Ready.{IsPlaced, created_ready}
use distributed_task_platfor.Webhooks.Enqueue.{new_delivery, enqueue_for}
use distributed_task_platfor.Webhooks.Dispatch.{dispatch_due}
use distributed_task_platfor.Webhooks.Bounds.{Bounded, deliveries-Bounded}
use distributed_task_platfor.Webhooks.Notified.{Notified, each_subscriber_notified}
use distributed_task_platfor.StatusChange.{assign_status, change}
use distributed_task_platfor.Workers.{find_worker, mark_dead_workers, beat}
use distributed_task_platfor.Workers.Heartbeat.{beating_stays_alive}
use distributed_task_platfor.Scheduler.{is_stale, purge_old_data}
use distributed_task_platfor.Scheduler.Retention.{unfinished_kept}
use distributed_task_platfor.ApiTokens.{ApiToken, authenticate, revoke_token, find_hash}
use distributed_task_platfor.ApiTokens.Revocation.{revoked_token_refused}
use distributed_task_platfor.Auth.{User, get_current_user}
use distributed_task_platfor.Auth.Access.{IsActiveRow, access_by_active}
use distributed_task_platfor.Invariant.Reach.{empty_db}
use distributed_task_platfor.Scenarios.{
  email, one_task, claimed, Reach-claimed, Reach-one, running_task, running_task_found,
  running_task_unfinished,
}

abbrev looped : Db
looped = record empty_db { dependencies = record { parent_task_id = 3; child_task_id = 2 } ∷ [] }

looped_refused : ensure_no_cycle 3 (2 ∷ []) looped ≡ err task_conflict
unfolding ensure_no_cycle finds_cycle push
looped_refused = refl

cycle_found_example : Leads looped.dependencies 3 (2 ∷ [])
cycle_found_example = cycle_found 3 (2 ∷ []) looped task_conflict looped_refused

abbrev hook : WebhookSubscription
hook = record {
  id = 1;
  name = "hook";
  url = "http://a";
  secret = none;
  events = "*" ∷ [];
  is_active = true;
}

abbrev subscribed : Db
subscribed = record one_task {
  subscriptions = hook ∷ [];
  deliveries = new_delivery 400 task_queued running_task hook one_task ∷ [];
  next_delivery_id = 2;
}

deliveries-Bounded_example :
    All
      (Bounded default_settings)
      (dispatch_due default_settings 500 (λ sub n. some "HTTP 500") 10 subscribed).0.deliveries
    × All
        (Bounded default_settings)
        (enqueue_for 500 task_queued running_task subscribed).deliveries
deliveries-Bounded_example =
    deliveries-Bounded default_settings 500 10 (λ sub n. some "HTTP 500") task_queued running_task
      subscribed (omega arith) ((omega arith, λ q. omega arith), tt)

each_subscriber_notified_example :
    (ds : List WebhookDelivery) × ((change 500 running_task failed task_failed
        (failure 1 "x")
        subscribed).deliveries
      ≡ (subscribed.deliveries ++ ds))
    × Notified 500 task_failed (assign_status 500 running_task failed) 2 (hook ∷ []) ds
    × ((assign_status 500 running_task failed).status ≡ failed)
each_subscriber_notified_example =
    each_subscriber_notified 500 running_task failed task_failed (failure 1 "x") subscribed

beating_stays_alive_example :
    ((w : Worker) × (find_worker "w"
          (mark_dead_workers 400 (beat 500 "w" "host" 7 one_task)).0.workers
        ≡ some w)
      × (w.status ≡ WorkerStatus.alive)
      × (w.last_heartbeat_at ≡ 500))
    × (count (is_stale 400) (mark_dead_workers 400 (beat 500 "w" "host" 7 one_task)).0.workers ≡ 0)
beating_stays_alive_example = beating_stays_alive 500 400 "w" "host" 7 one_task (omega arith)

unfinished_kept_example :
    get_task running_task.id (purge_old_data default_settings 99_000_000_000_000 none claimed).0
    ≡ some running_task
unfinished_kept_example =
    unfinished_kept default_settings 99_000_000_000_000 running_task.id none running_task claimed
      Reach-claimed running_task_found running_task_unfinished

abbrev alice : User
alice = record {
  id = 1;
  username = "alice";
  password_hash = "h";
  role = "admin";
  is_active = true;
  last_login_at = none;
}

abbrev alice_token : ApiToken
alice_token = record {
  id = 4;
  name = "ci";
  user_id = 1;
  token_hash = "tp_1";
  last_used_at = none;
  expires_at = none;
  revoked_at = none;
  is_active = true;
}

let_in :
    (get_current_user
      (λ x. x)
      (λ x. none)
      (λ x. true)
      500
      (some "tp_1")
      (alice_token ∷ [])
      (alice ∷ [])).0
    ≡ some alice
unfolding get_current_user authenticate find_hash
let_in = refl

access_by_active_example : IsActiveRow (alice ∷ []) alice
access_by_active_example =
    access_by_active (λ x. x) (λ x. none) (λ x. true) 500 (some "tp_1") (alice_token ∷ [])
      (alice ∷ []) alice let_in

token_found : find_hash (λ x. x) "tp_1" (alice_token ∷ []) ≡ some alice_token
unfolding find_hash
token_found = refl

revoked_token_refused_example :
    authenticate (λ x. x) 600 "tp_1" (revoke_token 500 4 1 false (alice_token ∷ [])).0 ≡ none
revoked_token_refused_example =
    revoked_token_refused (λ x. x) 500 600 1 false "tp_1" (alice_token ∷ []) alice_token token_found
      refl

created_ready_example :
    Returns
      (IsPlaced 700 (new_task default_settings 700 (email []) one_task.next_task_id) one_task)
      (create_task default_settings 2 700 (email []) one_task)
created_ready_example =
    created_ready default_settings 1 700 (email []) one_task Reach-one refl refl refl
