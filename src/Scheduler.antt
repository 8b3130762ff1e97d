-- ===== src/Scheduler.antt =====
-- backend/app/worker/services/scheduler.py: the coordinator's passes over the tasks. Each pass is
-- one transaction; rows that another transaction holds (`SKIP LOCKED`) are not modelled, since
-- transactions run one after another here.
pub mod Orphans
pub mod Retention
use distributed_task_platfor.Prelude.{
  ℕ, ◌+◌, ◌-◌, ◌*◌, String, Bool, false, not, ◌&&◌, Option, none, some, List, [], ◌∷◌, ◌==◌, leb,
  ltb, is_none, select, take, length, map, member, order_by, if◌then◌else◌,
}
use distributed_task_platfor.Model.Status.{
  Status, queued, running, retry_scheduled, dead_letter, scheduled, EventType, task_queued,
  task_retried, task_requeued, task_dlq_requeued, ◌=?◌, elem,
}
use distributed_task_platfor.Model.Rows.{
  Task, AttemptStatus, Attempt, attempts_so_far, dlq_cycle, lease_expired, WorkerStatus, Worker,
}
use distributed_task_platfor.Model.Settings.{Settings}
use distributed_task_platfor.Model.Db.{Db, put_task}
use distributed_task_platfor.Model.Result.{Result, ok, ◌>>=◌}
use distributed_task_platfor.StatusChange.{set_status}
use distributed_task_platfor.Tasks.{republish}
use distributed_task_platfor.Attempts.{lease_is_free, before, fail, finish_attempt}

abbrev pub due_statuses : List Status
due_statuses = retry_scheduled ∷ scheduled ∷ []

abbrev pub stuck_statuses : List Status
stuck_statuses = queued ∷ running ∷ []

-- A nullable column that is at most a time.
abbrev pub reached : Option ℕ → ℕ → Bool
reached none now = false
reached (some at) now = leb at now

abbrev pub time_or_zero : Option ℕ → ℕ
time_or_zero none = 0
time_or_zero (some at) = at

-- The loop over the selected rows. What it returns is the database; the count is the list's length.
unfoldable pub for_each : (Task → Db → Result Db) → List Task → Db → Result Db
for_each step [] db = ok db
for_each step (t ∷ ts) db = do db' ← step t db; for_each step ts db'

unfoldable pub is_orphaned : Settings → ℕ → Task → Bool
is_orphaned s now t =
    (t.status =? queued) && leb t.updated_at (now - s.queued_reconcile) && lease_is_free now t

-- The rows of tasks are read and not written, so `updated_at` stays.
unfoldable pub republish_all : Settings → List Task → Db → Db
republish_all s [] db = db
republish_all s (t ∷ ts) db = republish_all s ts (republish s t db)

unfoldable pub orphaned : Settings → ℕ → ℕ → Db → List Task
orphaned s now limit db =
    take limit (order_by (λ t. t.updated_at) (select (is_orphaned s now) db.tasks))

unfoldable pub requeue_orphaned_queued_tasks : Settings → ℕ → ℕ → Db → Db × ℕ
requeue_orphaned_queued_tasks s now limit db =
    let stuck = orphaned s now limit db in (republish_all s stuck db, length stuck)

abbrev pub is_due : ℕ → Task → Bool
is_due now t = elem t.status due_statuses && reached t.scheduled_at now

unfoldable pub due : ℕ → ℕ → Db → List Task
due now limit db =
    take limit (order_by (λ t. time_or_zero t.scheduled_at) (select (is_due now) db.tasks))

abbrev pub is_dlq_due : Settings → ℕ → Task → Bool
is_dlq_due s now t =
    (t.status =? dead_letter)
    && reached t.dlq_retry_at now
    && ltb t.dlq_requeue_count s.dlq_retry_max_cycles

unfoldable pub dlq_due : Settings → ℕ → ℕ → Db → List Task
dlq_due s now limit db =
    take limit (order_by (λ t. time_or_zero t.dlq_retry_at) (select (is_dlq_due s now) db.tasks))

abbrev pub is_stuck : ℕ → Task → Bool
is_stuck now t = before t.lease_expires_at now && elem t.status stuck_statuses

unfoldable pub stuck : ℕ → ℕ → Db → List Task
stuck now limit db =
    take limit (order_by (λ t. time_or_zero t.lease_expires_at) (select (is_stuck now) db.tasks))

-- `select(TaskAttempt).where(…, status == "running").order_by(attempt_number.desc()).limit(1)`.
abbrev pub later : Option ℕ → ℕ → Option ℕ
later none n = some n
later (some m) n = if ltb m n then some n else some m

unfoldable pub running_attempt : ℕ → List Attempt → Option ℕ
running_attempt id [] = none
running_attempt id (a ∷ as') =
    let rest = running_attempt id as' in
    elim a.status [
      | AttemptStatus.running ↦ (if a.task_id == id then later rest a.attempt_number else rest)
      | _ ↦ rest
    ]

abbrev pub lease_error : String
lease_error = "Lease прострочився — задачу повернуто в чергу"

abbrev pub close_attempt : ℕ → ℕ → Option ℕ → Db → Db
close_attempt now id none db = db
close_attempt now id (some n) db = finish_attempt id n (fail now lease_error) db

-- `update(Worker).where(…).values(status="dead")`.
abbrev pub is_stale : ℕ → Worker → Bool
is_stale cutoff w = elim w.status [
  | WorkerStatus.alive ↦ ltb w.last_heartbeat_at cutoff
  | WorkerStatus.dead ↦ false
]

abbrev pub mark_dead : ℕ → List Worker → List Worker
mark_dead cutoff [] = []
mark_dead cutoff (w ∷ ws) =
    (if is_stale cutoff w then record w { status = WorkerStatus.dead } else w) ∷ mark_dead cutoff ws

module _ (s : Settings) (depth now : ℕ) where
  unfoldable pub requeue : EventType → Task → Db → Result Db
  requeue e t db = do
    db' ← set_status depth s.routing_key_task_created now t queued e (attempts_so_far t.attempts) db
    ok (republish s t db')

  unfoldable pub requeue_due_task : Task → Db → Result Db
  requeue_due_task t db =
      requeue (if t.status =? retry_scheduled then task_retried else task_queued) t db

  unfoldable pub requeue_due_tasks : ℕ → Db → Result Db
  requeue_due_tasks limit db = for_each requeue_due_task (due now limit db) db

  unfoldable pub requeue_dlq_task : Task → Db → Result Db
  requeue_dlq_task t db = do
    let t' = record t { dlq_requeue_count = t.dlq_requeue_count + 1 }
    db' ←
        set_status depth s.routing_key_task_created now t' queued task_dlq_requeued
          (dlq_cycle t'.dlq_requeue_count s.dlq_retry_max_cycles) db
    ok (republish s t' db')

  unfoldable pub requeue_dlq_tasks : ℕ → Db → Result Db
  requeue_dlq_tasks limit db =
      if s.dlq_retry_enabled then for_each requeue_dlq_task (dlq_due s now limit db) db else ok db

  unfoldable pub recover_running : Task → Db → Result Db
  recover_running t db =
      let n = running_attempt t.id db.attempts in
      set_status depth s.routing_key_task_created now t queued task_requeued
        (lease_expired t.lease_owner n) (close_attempt now t.id n db)

  unfoldable pub recover_task : Task → Db → Result Db
  recover_task t db = do
    db' ←
        (if t.status =? running
          then recover_running t db
          else ok (
              put_task (record t { lease_owner = none; lease_expires_at = none; updated_at = now })
                db))
    ok (republish s t db')

  unfoldable pub recover_stuck_tasks : ℕ → Db → Result Db
  recover_stuck_tasks limit db =
      for_each recover_task (stuck now limit db)
        (record db { workers = mark_dead (now - s.worker_heartbeat_timeout) db.workers })

-- Retention. A day in microseconds.
abbrev pub day : ℕ
day = 86_400_000_000

-- Deleting tasks by their ids, with the rows that refer to them (`ondelete="CASCADE"`).
unfoldable pub delete_tasks : List ℕ → Db → Db
delete_tasks ids db = record db {
  tasks = select (λ t. not (member t.id ids)) db.tasks;
  attempts = select (λ a. not (member a.task_id ids)) db.attempts;
  events = select (λ e. not (member e.task_id ids)) db.events;
  dependencies =
      select (λ d. not (member d.parent_task_id ids) && not (member d.child_task_id ids))
        db.dependencies;
}

abbrev pub first_ids {ℓ} : {A : Type ℓ} → (A → ℕ) → ℕ → List A → List ℕ
first_ids id limit rows = take limit (map id (order_by id rows))

unfoldable pub done_ids : ℕ → ℕ → Db → List ℕ
done_ids cutoff limit db =
    first_ids (λ t. t.id) limit (select (λ t. reached t.finished_at cutoff) db.tasks)

unfoldable pub dlq_ids : ℕ → ℕ → Db → List ℕ
dlq_ids cutoff limit db =
    first_ids (λ t. t.id) limit
      (select
        (λ t. (t.status =? dead_letter) && is_none t.dlq_retry_at && reached t.finished_at cutoff)
        db.tasks)

unfoldable pub sent_ids : ℕ → ℕ → Db → List ℕ
sent_ids cutoff limit db =
    first_ids (λ o. o.id) limit (select (λ o. reached o.processed_at cutoff) db.outbox)

unfoldable pub audit_ids : ℕ → ℕ → Db → List ℕ
audit_ids cutoff limit db =
    first_ids (λ a. a.id) limit (select (λ a. leb a.created_at cutoff) db.audit)

-- One block of `purge_old_data`: nothing is done where the setting is 0.
abbrev pub purge_if : ℕ → (Db → List ℕ) → (List ℕ → Db → Db) → Db × ℕ → Db × ℕ
purge_if days pick delete (db, n) =
    let ids = pick db in if ltb 0 days then (delete ids db, n + length ids) else (db, n)

unfoldable pub delete_outbox : List ℕ → Db → Db
delete_outbox ids db = record db { outbox = select (λ o. not (member o.id ids)) db.outbox }

unfoldable pub delete_audit : List ℕ → Db → Db
delete_audit ids db = record db { audit = select (λ a. not (member a.id ids)) db.audit }

-- `limit or settings.retention_cleanup_batch_size`.
abbrev pub limit_or : Option ℕ → ℕ → ℕ
limit_or none d = d
limit_or (some n) d = if n == 0 then d else n

-- The four blocks, each after those before it; `n` is the limit.
unfoldable pub purge_done : Settings → ℕ → ℕ → Db × ℕ → Db × ℕ
purge_done s now n r =
    purge_if s.retention_done_tasks_days (done_ids (now - s.retention_done_tasks_days * day) n)
      delete_tasks r

unfoldable pub purge_dead : Settings → ℕ → ℕ → Db × ℕ → Db × ℕ
purge_dead s now n r =
    purge_if s.retention_dlq_tasks_days (dlq_ids (now - s.retention_dlq_tasks_days * day) n)
      delete_tasks r

unfoldable pub purge_outbox : Settings → ℕ → ℕ → Db × ℕ → Db × ℕ
purge_outbox s now n r =
    purge_if s.retention_outbox_sent_days (sent_ids (now - s.retention_outbox_sent_days * day) n)
      delete_outbox r

unfoldable pub purge_audit : Settings → ℕ → ℕ → Db × ℕ → Db × ℕ
purge_audit s now n r =
    purge_if s.retention_audit_days (audit_ids (now - s.retention_audit_days * day) n) delete_audit
      r

unfoldable pub purge_old_data : Settings → ℕ → Option ℕ → Db → Db × ℕ
unfolding purge_done purge_dead purge_outbox purge_audit
purge_old_data s now limit db =
    let n = limit_or limit s.retention_cleanup_batch_size in
    purge_audit s now n (purge_outbox s now n (purge_dead s now n (purge_done s now n (db, 0))))
