-- ===== src/Attempts.antt =====
-- backend/app/worker/services/attempts.py: the lease of a task and the records of its attempts. An
-- attempt is found by its task and its number.
pub mod Failure
use distributed_task_platfor.Prelude.{
  ℕ, ◌+◌, String, Bool, true, false, ◌&&◌, ◌||◌, Option, none, some, List, [], ◌∷◌, ◌++◌, ◌==◌,
  ◌=ₛ◌, ltb, is_none, truncate, count, if◌then◌else◌,
}
use distributed_task_platfor.Model.Status.{
  Status, EventType, task_running, task_attempt_started, task_succeeded, task_failed,
  task_retry_scheduled, task_dead_lettered, ◌=?◌,
}
use distributed_task_platfor.Model.Rows.{
  Task, AttemptStatus, Attempt, Details, empty, attempt_number, retry, failure,
}
use distributed_task_platfor.Model.Settings.{Settings}
use distributed_task_platfor.Model.Db.{Db, get_task, put_task}
use distributed_task_platfor.Model.Result.{Result, ok, err, not_found, arithmetic, ◌>>=◌}
use distributed_task_platfor.StatusChange.{record_event, set_status}
use distributed_task_platfor.Tasks.{compute_retry_delay}

abbrev pub before : Option ℕ → ℕ → Bool
before none now = false
before (some at) now = ltb at now

-- No lease, or one that has run out.
unfoldable pub lease_is_free : ℕ → Task → Bool
lease_is_free now t =
    is_none t.lease_owner || is_none t.lease_expires_at || before t.lease_expires_at now

-- An `update(Task).where(…).values(…)`: the rows that pass the test, and how many they are.
abbrev pub update_where : (Task → Bool) → (Task → Task) → List Task → List Task
update_where p f [] = []
update_where p f (t ∷ ts) = (if p t then f t else t) ∷ update_where p f ts

abbrev pub can_acquire : ℕ → ℕ → Task → Bool
can_acquire now id t = (t.id == id) && (t.status =? Status.queued) && lease_is_free now t

unfoldable pub try_acquire_lease : ℕ → ℕ → String → ℕ → Db → Bool × Db
try_acquire_lease now id worker lease db = (
  count (can_acquire now id) db.tasks == 1,
  record db {
    tasks =
        update_where (can_acquire now id)
          (λ t. record t {
            lease_owner = some worker;
            lease_expires_at = some (now + lease);
            updated_at = now;
          })
          db.tasks;
  },
)

abbrev pub is_owner : Option String → String → Bool
is_owner none worker = false
is_owner (some w) worker = w =ₛ worker

abbrev pub can_renew : ℕ → String → Task → Bool
can_renew id worker t =
    (t.id == id) && is_owner t.lease_owner worker && (t.status =? Status.running)

unfoldable pub renew_lease : ℕ → ℕ → String → ℕ → Db → Bool × Db
renew_lease now id worker lease db = (
  count (can_renew id worker) db.tasks == 1,
  record db {
    tasks =
        update_where (can_renew id worker)
          (λ t. record t { lease_expires_at = some (now + lease); updated_at = now }) db.tasks;
  },
)

-- The object of a row that the session holds, by the row; the session has it, so there is one.
abbrev pub with_row : Option Task → (Task → Result Db) → Result Db
with_row none k = err not_found
with_row (some t) k = k t

-- A column of the held object is changed after a call of `set_status`.
unfoldable pub modify_task : ℕ → (Task → Task) → Db → Result Db
modify_task id f db = with_row (get_task id db) (λ t. ok (put_task (f t) db))

-- What a flush leaves in a column of the row, after the assignment of `new` to an object that holds
-- `held`: an assignment of the value that the object has is no change.
abbrev pub same_text : Option String → Option String → Bool
same_text none none = true
same_text none (some b) = false
same_text (some a) none = false
same_text (some a) (some b) = a =ₛ b

abbrev pub assigned_text : Option String → Option String → Option String → Option String
assigned_text held new row = if same_text held new then row else new

abbrev pub same_number : Option ℕ → Option ℕ → Bool
same_number none none = true
same_number none (some b) = false
same_number (some a) none = false
same_number (some a) (some b) = a == b

abbrev pub assigned : Option ℕ → Option ℕ → Option ℕ → Option ℕ
assigned held new row = if same_number held new then row else new

-- `if not await _still_running(…): return`. The status in the database is compared; the lease and
-- the attempt are not.
abbrev pub if_running : Option Task → (Task → Result Db) → Db → Result Db
if_running none k db = ok db
if_running (some t) k db = if t.status =? Status.running then k t else ok db

abbrev pub is_attempt : ℕ → ℕ → Attempt → Bool
is_attempt id n a = (a.task_id == id) && (a.attempt_number == n)

abbrev pub update_attempt : ℕ → ℕ → (Attempt → Attempt) → List Attempt → List Attempt
update_attempt id n f [] = []
update_attempt id n f (a ∷ as') = (if is_attempt id n a then f a else a) ∷ update_attempt id n f as'

unfoldable pub finish_attempt : ℕ → ℕ → (Attempt → Attempt) → Db → Db
finish_attempt id n f db = record db { attempts = update_attempt id n f db.attempts }

abbrev pub succeed : ℕ → String → Attempt → Attempt
succeed now outcome a = record a {
  status = AttemptStatus.success;
  outcome = some outcome;
  finished_at = some now;
}

abbrev pub fail : ℕ → String → Attempt → Attempt
fail now error a = record a {
  status = AttemptStatus.failed;
  error_message = some error;
  finished_at = some now;
}

-- The row of a new attempt; `handle_message` sets the worker before the commit.
abbrev pub new_attempt : ℕ → ℕ → ℕ → String → Attempt
new_attempt now id n worker = record {
  task_id = id;
  attempt_number = n;
  worker_id = some worker;
  status = AttemptStatus.running;
  error_message = none;
  outcome = none;
  started_at = some now;
  finished_at = none;
}

module _ (s : Settings) (depth now : ℕ) where
  -- What `start_attempt` does after the change of status, to the object that it holds.
  unfoldable pub count_attempt : String → Task → Db → Db
  count_attempt worker t db =
      let t' = record t {
        attempts = t.attempts + 1;
        started_at = if is_none t.started_at then some now else t.started_at;
      } in
      record_event t' task_attempt_started Status.running (attempt_number (t.attempts + 1))
        (record (put_task t' db) {
          attempts = db.attempts ++ new_attempt now t.id (t.attempts + 1) worker ∷ [];
        })

  unfoldable pub start_attempt : String → Task → Db → Result Db
  start_attempt worker t db = do
    db' ← set_status depth s.routing_key_task_created now t Status.running task_running empty db
    with_row (get_task t.id db') (λ t'. ok (count_attempt worker t' db'))

  -- The second transaction of a worker works on the object `held` that the session has from the
  -- first: with `expire_on_commit=False` it is not read again, and `row` is the row that the flush
  -- updates. The event and the webhooks of `set_status` see the object, with its attempts; the row
  -- keeps its own.
  unfoldable pub set_held : Task → Task → Task → Status → EventType → Details → Db → Result Db
  set_held held row t new e d db = do
    db' ←
        set_status depth s.routing_key_task_created now (record t { attempts = held.attempts }) new
          e d db
    modify_task row.id (λ u. record u { attempts = row.attempts }) db'

  unfoldable pub succeed_task : Task → String → Db → Task → Result Db
  succeed_task held outcome db row =
      set_held held row
        (record row {
          outcome = assigned_text held.outcome (some outcome) row.outcome;
          finished_at = some now;
        })
        Status.success task_succeeded empty db

  unfoldable pub record_success : ℕ → ℕ → Task → String → Db → Result Db
  record_success id n held outcome db =
      let db' = finish_attempt id n (succeed now outcome) db in
      if_running (get_task id db') (succeed_task held outcome db') db'

  -- The object runs, so its `scheduled_at` is not the new time, which is always written.
  abbrev pub retry_after : ℕ → Task → Task → Task → Db → Option ℕ → Result Db
  retry_after n held row t db none = err arithmetic
  retry_after n held row t db (some backoff) =
      set_held held row (record t { scheduled_at = some (now + backoff) }) Status.retry_scheduled
        task_retry_scheduled (retry n backoff (now + backoff)) db

  unfoldable pub schedule_retry : ℕ → Task → Task → Task → Db → Result Db
  schedule_retry n held row t db = retry_after n held row t db (compute_retry_delay s held.attempts)

  abbrev pub next_dlq_retry : Task → Option ℕ
  next_dlq_retry t =
      if s.dlq_retry_enabled && ltb t.dlq_requeue_count s.dlq_retry_max_cycles
      then some (now + s.dlq_retry_interval)
      else none

  unfoldable pub give_up : Bool → ℕ → String → Task → Task → Task → Db → Result Db
  give_up retryable n error held row t db =
      if retryable
      then (do
        db' ← set_held held row t Status.dead_letter task_dead_lettered (failure n error) db
        modify_task row.id
            (λ u. record u {
              dlq_retry_at = assigned held.dlq_retry_at (next_dlq_retry held) row.dlq_retry_at;
            })
            db')
      else set_held held row t Status.failed task_failed (failure n error) db

  abbrev pub with_error : Task → String → Task → Task
  with_error held error row = record row {
    last_error = assigned_text held.last_error (some error) row.last_error;
  }

  -- The branches of `record_failure` for a task that is still running.
  unfoldable pub fail_task : Bool → ℕ → String → Task → Task → Db → Result Db
  fail_task retryable n error held row db =
      if retryable && ltb held.attempts held.max_attempts
      then schedule_retry n held row (with_error held error row) db
      else give_up retryable n error held row (with_error held error row) db

  unfoldable pub record_failure : ℕ → ℕ → Task → String → Bool → Db → Result Db
  record_failure id n held error retryable db =
      let short = truncate 2000 error in
      let db' = finish_attempt id n (fail now short) db in
      if_running (get_task id db') (λ row. fail_task retryable n short held row db') db'
