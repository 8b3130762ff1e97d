-- ===== src/Invariant/Runs.antt =====
-- The two transactions of a worker keep the invariant.
use mathlib.Core.Path.{subst}
use distributed_task_platfor.Prelude.{
  ℕ, ◌+◌, String, ◌≡◌, refl, sym, ap, ◌∙◌, Bool, true, false, Option, none, some, [], ◌∷◌, arith,
  Bool-cases, Option-cases, inl, inr, is_some, ltb, truncate,
}
use distributed_task_platfor.Model.Status.{
  Status, EventType, task_succeeded, ◌=?◌, elem, eq_of_=?, task_dead_lettered, task_failed,
  task_retry_scheduled,
}
use distributed_task_platfor.Model.Rows.{Task, Attempt, Details, empty, failure}
use distributed_task_platfor.Model.Settings.{Settings}
use distributed_task_platfor.Model.Db.{Db, find, get_task, put_task}
use distributed_task_platfor.Model.Result.{Result, Ensures, Outcome-bind}
use distributed_task_platfor.StatusChange.{set_status}
use distributed_task_platfor.StatusChange.Induction.{get_task-id}
use distributed_task_platfor.Attempts.{
  finish_attempt, modify_task, if_running, succeed, succeed_task, fail, record_success,
  record_failure, fail_task, give_up, schedule_retry, next_dlq_retry, set_held, retry_after,
  with_error, assigned, assigned_text,
}
use distributed_task_platfor.Scheduler.{due_statuses}
use distributed_task_platfor.Tasks.{compute_retry_delay}
use distributed_task_platfor.Worker.{
  finish, Execution, returned, timed_out, unknown_task_type, raised,
}
use distributed_task_platfor.Invariant.{IsSettled, Holds}
use distributed_task_platfor.Invariant.Primitives.{write-Invariant}
use distributed_task_platfor.Invariant.Steps.{
  IsReady, assign-IsSettled, IsSettled-find, set_status-Holds,
}

module _ (s : Settings) (now : ℕ) where
  finish_attempt-Holds :
      (id n : ℕ) (f : Attempt → Attempt) (db : Db) → Holds s db → Holds s (finish_attempt id n f db)
  unfolding finish_attempt
  finish_attempt-Holds id n f db h = h

  -- A running task whose columns but the status, the lease and the count of cycles were changed.
  running-IsReady :
      (t u : Task) (new : Status)
      → IsSettled s u
      → u.status ≡ t.status
      → t.lease_owner ≡ u.lease_owner
      → t.lease_expires_at ≡ u.lease_expires_at
      → t.dlq_requeue_count ≡ u.dlq_requeue_count
      → (new =? Status.running) ≡ false
      → (elem new (Status.retry_scheduled ∷ Status.scheduled ∷ []) ≡ true
          → is_some t.scheduled_at ≡ true)
      → IsReady s t new
  running-IsReady t u new r k o l c n w = record {
    not_running = n;
    waiting = w;
    owner = ap is_some o ∙ r.owner ∙ ap (λ st. st =? Status.running) k;
    lease = ap is_some l ∙ r.lease ∙ ap (λ st. st =? Status.running) k;
    cycles = rw c r.cycles;
  }

  if_running-Ensures :
      (P : Db → Type 0) (o : Option Task) (k : Task → Result Db) (db : Db)
      → ((t : Task) → o ≡ some t → t.status ≡ Status.running → Ensures P (k t))
      → P db
      → Ensures P (if_running o k db)
  if_running-Ensures P none k db h p = p
  if_running-Ensures P (some t) k db h p = elim (Bool-cases (t.status =? Status.running)) [
    | inl e ↦ rw e (h t refl (eq_of_=? t.status Status.running e))
    | inr e ↦ rw e p
  ]

  -- A running task changes to another status; `t` is its row `u` with other columns assigned.
  leave-Holds :
      (depth : ℕ) (t u : Task) (new : Status) (e : EventType) (d : Details) (db : Db)
      → Holds s db
      → get_task t.id db ≡ some u
      → u.status ≡ Status.running
      → t.status ≡ u.status
      → t.lease_owner ≡ u.lease_owner
      → t.lease_expires_at ≡ u.lease_expires_at
      → t.dlq_requeue_count ≡ u.dlq_requeue_count
      → (new =? Status.running) ≡ false
      → (elem new due_statuses ≡ true → is_some t.scheduled_at ≡ true)
      → Ensures (Holds s) (set_status depth s.routing_key_task_created now t new e d db)
  leave-Holds depth t u new e d db h g k q o l c n w =
      set_status-Holds s now s.routing_key_task_created depth t u new e d db h g (sym q)
        (ground arith)
        (assign-IsSettled s now t new
          (running-IsReady t u new (IsSettled-find s now t.id u db h g) (sym q) o l c n w))

  modify-Holds :
      (id : ℕ) (f : Task → Task) (db : Db)
      → ((t : Task)
          → IsSettled s t
          → IsSettled s (f t) × ((f t).id ≡ t.id) × ((f t).status ≡ t.status))
      → Holds s db
      → Ensures (Holds s) (modify_task id f db)
  unfolding modify_task
  modify-Holds id f db k h = elim (Option-cases (get_task id db)) [
    | inl e ↦ rw e tt
    | inr (t, e) ↦
        let r = k t (IsSettled-find s now id t db h e) in
        rw e (
          unfold put_task in
          write-Invariant s h (f t) t
            (subst (λ j. find j db.tasks ≡ some t) (sym r.1)
              (unfold get_task in get_task-id id db t e))
            (sym r.2) r.0)
  ]

  cycle-IsSettled :
      (t : Task) {at : Option ℕ} {n : ℕ}
      → IsSettled s t
      → IsSettled s (record t { dlq_retry_at = at; attempts = n })
  cycle-IsSettled t r = record {
    finished = r.finished;
    unfinished = r.unfinished;
    unscheduled = r.unscheduled;
    waiting = r.waiting;
    started = r.started;
    owner = r.owner;
    lease = r.lease;
    cycles = r.cycles;
  }

  -- The object of an earlier transaction in place of the row.
  set_held-Holds :
      (depth : ℕ) (held t u : Task) (new : Status) (e : EventType) (d : Details) (db : Db)
      → Holds s db
      → get_task t.id db ≡ some u
      → u.status ≡ Status.running
      → t.status ≡ u.status
      → t.lease_owner ≡ u.lease_owner
      → t.lease_expires_at ≡ u.lease_expires_at
      → t.dlq_requeue_count ≡ u.dlq_requeue_count
      → (new =? Status.running) ≡ false
      → (elem new due_statuses ≡ true → is_some t.scheduled_at ≡ true)
      → Ensures (Holds s) (set_held s depth now held u t new e d db)
  unfolding set_held
  set_held-Holds depth held t u new e d db h g k q o l c n w =
      Outcome-bind (Holds s) (Holds s) Unit
        (set_status depth s.routing_key_task_created now (record t { attempts = held.attempts }) new
          e d db)
        (modify_task u.id (λ v. record v { attempts = u.attempts }))
        (leave-Holds depth (record t { attempts = held.attempts }) u new e d db h g k q o l c n w)
        (λ db' h'.
          modify-Holds u.id (λ v. record v { attempts = u.attempts }) db'
            (λ v r. (cycle-IsSettled v r, refl, refl)) h')

  pub record_success-Holds :
      (depth id n : ℕ) (held : Task) (outcome : String) (db : Db)
      → Holds s db
      → Ensures (Holds s) (record_success s depth now id n held outcome db)
  unfolding record_success succeed_task
  record_success-Holds depth id n held outcome db h =
      let db' = finish_attempt id n (succeed now outcome) db in
      let h' : Holds s db' = finish_attempt-Holds id n (succeed now outcome) db h in
      if_running-Ensures (Holds s) (get_task id db') _ db'
        (λ t g k.
          set_held-Holds depth held
            (record t {
              outcome = assigned_text held.outcome (some outcome) t.outcome;
              finished_at = some now;
            })
            t Status.success task_succeeded empty db' h' (get_task-id id db' t g) k refl refl refl
            refl refl (λ w. absurd (cc)))
        h'

  retry_after-Holds :
      (depth n : ℕ) (held t u : Task) (db : Db) (delay : Option ℕ)
      → Holds s db
      → get_task t.id db ≡ some u
      → u.status ≡ Status.running
      → t.status ≡ u.status
      → t.lease_owner ≡ u.lease_owner
      → t.lease_expires_at ≡ u.lease_expires_at
      → t.dlq_requeue_count ≡ u.dlq_requeue_count
      → Ensures (Holds s) (retry_after s depth now n held u t db delay)
  retry_after-Holds depth n held t u db none h g k q o l c = tt
  retry_after-Holds depth n held t u db (some delay) h g k q o l c =
      set_held-Holds depth held (record t { scheduled_at = some (now + delay) }) u
        Status.retry_scheduled task_retry_scheduled _ db h g k q o l c refl (λ w. refl)

  fail_task-Holds :
      (depth : ℕ) (retryable : Bool) (n : ℕ) (error : String) (held t : Task) (db : Db)
      → Holds s db
      → get_task t.id db ≡ some t
      → t.status ≡ Status.running
      → Ensures (Holds s) (fail_task s depth now retryable n error held t db)
  unfolding fail_task schedule_retry give_up
  fail_task-Holds depth false n error held t db h g k =
      set_held-Holds depth held (with_error s depth now held error t) t Status.failed task_failed
        (failure n error) db h g k refl refl refl refl refl (λ w. absurd (cc))
  fail_task-Holds depth true n error held t db h g k =
      let u = with_error s depth now held error t in
      let f : Task → Task = λ v. record v {
        dlq_retry_at = assigned held.dlq_retry_at (next_dlq_retry s depth now held) t.dlq_retry_at;
      } in
      elim (Bool-cases (ltb held.attempts held.max_attempts)) [
        | inl e ↦ rw e (
            retry_after-Holds depth n held u t db (compute_retry_delay s held.attempts) h g k refl
              refl refl refl)
        | inr e ↦ rw e (
            Outcome-bind (Holds s) (Holds s) Unit
              (set_held s depth now held t u Status.dead_letter task_dead_lettered (failure n error)
                db)
              (modify_task t.id f)
              (set_held-Holds depth held u t Status.dead_letter task_dead_lettered (failure n error)
                db h g k refl refl refl refl refl (λ w. absurd (cc)))
              (λ db' h'. modify-Holds t.id f db' (λ v r. (cycle-IsSettled v r, refl, refl)) h'))
      ]

  pub record_failure-Holds :
      (depth id n : ℕ) (held : Task) (error : String) (retryable : Bool) (db : Db)
      → Holds s db
      → Ensures (Holds s) (record_failure s depth now id n held error retryable db)
  unfolding record_failure
  record_failure-Holds depth id n held error retryable db h =
      let db' = finish_attempt id n (fail now (truncate 2000 error)) db in
      let h' : Holds s db' = finish_attempt-Holds id n (fail now (truncate 2000 error)) db h in
      if_running-Ensures (Holds s) (get_task id db') _ db'
        (λ t g k.
          fail_task-Holds depth retryable n (truncate 2000 error) held t db' h'
            (get_task-id id db' t g) k)
        h'

  -- The second transaction of a worker, however the execution ended and whatever object it holds.
  pub finish-Holds :
      (depth : ℕ) (worker : String) (id n : ℕ) (held : Task) (x : Execution) (db : Db)
      → Holds s db
      → Ensures (Holds s) (finish s depth now worker id n held x db)
  unfolding finish
  finish-Holds depth worker id n held (returned r) db h =
      record_success-Holds depth id n held r db h
  finish-Holds depth worker id n held (timed_out e) db h =
      record_failure-Holds depth id n held e true db h
  finish-Holds depth worker id n held (unknown_task_type e) db h =
      record_failure-Holds depth id n held e false db h
  finish-Holds depth worker id n held (raised e) db h =
      record_failure-Holds depth id n held e true db h
