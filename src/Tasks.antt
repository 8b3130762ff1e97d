-- ===== src/Tasks.antt =====
-- backend/app/services/tasks.py: creation, manual retry and cancellation of tasks, one by one and
-- in bulk. (`set_status` is in StatusChange, the listing in Tasks/Listing.) An operation takes the
-- settings, the bound on the depth of the calls of `set_status`, and the time.
pub mod Listing
pub mod Retry
pub mod BulkReports
pub mod Blocked
pub mod Ready
pub mod Naive
pub mod Decisions
use distributed_task_platfor.Prelude.{
  ℕ, zero, suc, ◌*◌, ◌/◌, ◌^◌, leb, min, String, Bool, true, false, not, ◌&&◌, is_some, Option,
  none, some, List, [], ◌∷◌, ◌++◌, ◌==◌, ◌=ₛ◌, ltb, if◌then◌else◌,
}
use distributed_task_platfor.Model.Status.{
  Status, created, queued, scheduled, cancelled, Priority, EventType, task_created, task_queued,
  task_scheduled, task_cancelled, task_retried, task_blocked, elem, cancelable, retryable,
}
use distributed_task_platfor.Model.Rows.{Task, empty, waiting_for, attempts_so_far}
use distributed_task_platfor.Model.Settings.{Settings}
use distributed_task_platfor.Model.Db.{Db, get_task, add_outbox}
use distributed_task_platfor.Model.Result.{
  Result, ok, err, integrity, task_conflict, type_error, ◌>>=◌,
}
use distributed_task_platfor.StatusChange.{record_event, task_message, set_status}
use distributed_task_platfor.Dependencies.{register_dependencies}

-- Where the power of the factor leaves the range of a float, which raises OverflowError.
unfoldable pub overflows : Settings → ℕ → Bool
overflows s n = leb (2 ^ 1024 * s.retry_backoff_unit ^ n) (s.retry_backoff_factor ^ n)

-- `compute_retry_delay_seconds`, or `none` for an exception. The exponent is `attempts - 1`, which is
-- -1 before any attempt, where a factor of 0 raises too.
unfoldable pub compute_retry_delay : Settings → ℕ → Option ℕ
compute_retry_delay s zero =
    if s.retry_backoff_factor == 0
    then none
    else some (min (s.retry_base * s.retry_backoff_unit / s.retry_backoff_factor) s.retry_max_delay)
compute_retry_delay s (suc n) =
    if overflows s n
    then none
    else some (
        min (s.retry_base * s.retry_backoff_factor ^ n / s.retry_backoff_unit ^ n)
          s.retry_max_delay)

-- The keyword arguments of `create_task`.
pub record TaskSpec : Type 0 where
  pub task_type : String
  pub payload : String
  pub priority : Priority
  pub max_attempts : Option ℕ
  pub idempotency_key : Option String
  pub created_by : Option ℕ
  pub schedule_at : Option ℕ
  pub naive : Bool  -- that time has no time zone
  pub batch_id : Option ℕ
  pub depends_on : List ℕ  -- `None` and the empty list take the same branch

unfoldable pub new_task : Settings → ℕ → TaskSpec → ℕ → Task
new_task s now spec id = record {
  id = id;
  task_type = spec.task_type;
  payload = spec.payload;
  status = created;
  priority = spec.priority;
  max_attempts = elim spec.max_attempts [ none ↦ s.task_max_attempts | some n ↦ n ];
  attempts = 0;
  idempotency_key = spec.idempotency_key;
  scheduled_at = spec.schedule_at;
  started_at = none;
  finished_at = none;
  lease_owner = none;
  lease_expires_at = none;
  outcome = none;
  last_error = none;
  created_by = spec.created_by;
  batch_id = spec.batch_id;
  dlq_requeue_count = 0;
  dlq_retry_at = none;
  created_at = now;
  updated_at = now;
}

abbrev pub same_key : String → Option String → Bool
same_key k none = false
same_key k (some j) = j =ₛ k

-- Whether the unique column `idempotency_key` holds the key. `NULL` is never equal to `NULL`.
abbrev pub has_key : Option String → List Task → Bool
has_key none ts = false
has_key (some k) [] = false
has_key (some k) (t ∷ ts) =
    let rest = has_key (some k) ts in if same_key k t.idempotency_key then true else rest

-- `session.add(task)` and the flush, which raises IntegrityError on a key that is taken.
unfoldable pub insert_task : Task → Db → Result Db
insert_task t db =
    if has_key t.idempotency_key db.tasks
    then err integrity
    else ok (record db { tasks = db.tasks ++ t ∷ []; next_task_id = suc db.next_task_id })

abbrev pub is_naive : TaskSpec → Bool
is_naive spec = spec.naive && is_some spec.schedule_at

-- `schedule_at > datetime.now(UTC)`, which a task with parents does not reach, raises TypeError for a
-- time with no time zone.
abbrev pub comparable : Bool → List ℕ → Result Db → Result Db
comparable true [] r = err type_error
comparable true (p ∷ ps) r = r
comparable false ps r = r

abbrev pub is_future : ℕ → Option ℕ → Bool
is_future now none = false
is_future now (some at) = ltb now at

-- The message that brings a task back to a worker.
unfoldable pub republish : Settings → Task → Db → Db
republish s t db = add_outbox s.routing_key_task_created (task_message t true) db

module _ (s : Settings) (depth now : ℕ) where
  unfoldable pub enqueue : Task → Db → Result Db
  enqueue t db = do
    db' ← set_status depth s.routing_key_task_created now t queued task_queued empty db
    ok (add_outbox s.routing_key_task_created (task_message t false) db')

  -- `create_task` from `task.created` on.
  unfoldable pub place_task : Task → List ℕ → Db → Result Db
  place_task t (p ∷ ps) db = do
    db' ← register_dependencies t.id (p ∷ ps) db
    ok (record_event t task_blocked created (waiting_for (p ∷ ps)) db')
  place_task t [] db =
      if is_future now t.scheduled_at
      then set_status depth s.routing_key_task_created now t scheduled task_scheduled empty db
      else enqueue t db

  -- The id of the new task is `next_task_id` of the database before.
  unfoldable pub create_task : TaskSpec → Db → Result Db
  create_task spec db = do
    let t = new_task s now spec db.next_task_id
    db' ← insert_task t db
    comparable (is_naive spec) spec.depends_on
        (place_task t spec.depends_on (record_event t task_created created empty db'))

  unfoldable pub retry_task : Task → Db → Result Db
  retry_task t db = if not (elem t.status retryable) then err task_conflict else do
    db' ←
        set_status depth s.routing_key_task_created now t queued task_retried
          (attempts_so_far t.attempts) db
    ok (republish s t db')

  -- `None` is returned for a task that is not there.
  unfoldable pub manual_retry : ℕ → Db → Result (Option Db)
  manual_retry id db = elim (get_task id db) [
    | none ↦ ok none
    | some t ↦ do db' ← retry_task t db; ok (some db')
  ]

  unfoldable pub cancel_row : Task → Db → Result Db
  cancel_row t db =
      if not (elem t.status cancelable)
      then err task_conflict
      else set_status depth s.routing_key_task_created now t cancelled task_cancelled empty db

  unfoldable pub cancel_task : ℕ → Db → Result (Option Db)
  cancel_task id db = elim (get_task id db) [
    | none ↦ ok none
    | some t ↦ do db' ← cancel_row t db; ok (some db')
  ]

-- What a bulk operation returns: the ids that succeeded and those in conflict.
pub record Bulk : Type 0 where
  pub db : Db
  pub succeeded : List ℕ
  pub conflicts : List ℕ

-- One id of `bulk_retry` and `bulk_cancel`: a conflict and a missing task are reported, and any
-- other exception ends the whole request.
abbrev pub report : ℕ → Bulk → Result (Option Db) → Result Bulk
report id b (ok (some db)) = ok (record b { db = db; succeeded = b.succeeded ++ id ∷ [] })
report id b (ok none) = ok (record b { conflicts = b.conflicts ++ id ∷ [] })
report id b (err task_conflict) = ok (record b { conflicts = b.conflicts ++ id ∷ [] })
report id b (err e) = err e

unfoldable pub bulk : (ℕ → Db → Result (Option Db)) → List ℕ → Bulk → Result Bulk
bulk op [] b = ok b
bulk op (id ∷ ids) b = do b' ← report id b (op id b.db); bulk op ids b'

abbrev pub start_bulk : Db → Bulk
start_bulk db = record { db = db; succeeded = []; conflicts = [] }

unfoldable pub bulk_retry : Settings → ℕ → ℕ → List ℕ → Db → Result Bulk
bulk_retry s depth now ids db = bulk (manual_retry s depth now) ids (start_bulk db)

unfoldable pub bulk_cancel : Settings → ℕ → ℕ → List ℕ → Db → Result Bulk
bulk_cancel s depth now ids db = bulk (cancel_task s depth now) ids (start_bulk db)

-- `bulk_create`: each task in a savepoint, which an IntegrityError rolls back.
pub record Created : Type 0 where
  pub db : Db
  pub tasks : List ℕ
  pub conflicts : List TaskSpec

abbrev pub savepoint : TaskSpec → Created → Result Db → Result Created
savepoint spec c (ok db) = ok (record c { db = db; tasks = c.tasks ++ c.db.next_task_id ∷ [] })
savepoint spec c (err integrity) = ok (record c { conflicts = c.conflicts ++ spec ∷ [] })
savepoint spec c (err e) = err e

unfoldable pub create_each : Settings → ℕ → ℕ → List TaskSpec → Created → Result Created
create_each s depth now [] c = ok c
create_each s depth now (spec ∷ specs) c = do
  c' ← savepoint spec c (create_task s depth now spec c.db)
  create_each s depth now specs c'

unfoldable pub bulk_create : Settings → ℕ → ℕ → List TaskSpec → Db → Result Created
bulk_create s depth now specs db =
    create_each s depth now specs (record { db = db; tasks = []; conflicts = [] })
