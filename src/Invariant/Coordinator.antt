-- ===== src/Invariant/Coordinator.antt =====
-- The passes of the coordinator keep the invariant.
use distributed_task_platfor.Prelude.{
  ℕ, zero, suc, ◌+◌, ◌-◌, ◌≡◌, refl, sym, ap, ◌∙◌, Bool, true, false, Option, none, some, List, [],
  ◌∷◌, arith, Bool-cases, inl, inr, if◌then◌else◌,
}
use distributed_task_platfor.Model.Status.{
  queued, running, retry_scheduled, EventType, task_retried, task_queued, task_requeued,
  task_dlq_requeued, can_transition, ◌=?◌, eq_of_=?,
}
use distributed_task_platfor.Model.Rows.{Task, Details, attempts_so_far, dlq_cycle, lease_expired}
use distributed_task_platfor.Model.Settings.{Settings}
use distributed_task_platfor.Model.Db.{Db, find, get_task, put_task, add_outbox}
use distributed_task_platfor.Model.Result.{Result, ok, err, Ensures, Outcome-weaken, ◌>>=◌}
use distributed_task_platfor.StatusChange.{
  assign_status, record_event, change, set_status, after_change,
}
use distributed_task_platfor.StatusChange.Frame.{change-frame}
use distributed_task_platfor.Attempts.{finish_attempt}
use distributed_task_platfor.Scheduler.{
  due, is_due, requeue, requeue_due_task, requeue_due_tasks, is_dlq_due, dlq_due, requeue_dlq_task,
  requeue_dlq_tasks, time_or_zero, is_stuck, stuck, recover_running, recover_task,
  recover_stuck_tasks, close_attempt, running_attempt, mark_dead, republish_all, orphaned,
  requeue_orphaned_queued_tasks,
}
use distributed_task_platfor.Tasks.{republish}
use distributed_task_platfor.Invariant.{Holds}
use distributed_task_platfor.Invariant.Primitives.{write-Invariant}
use distributed_task_platfor.Invariant.Steps.{
  IsReady, assign-IsSettled, change-Holds, IsSettled-find,
}
use distributed_task_platfor.Invariant.Passes.{Others, Others-replace, pass-Holds}
use distributed_task_platfor.Invariant.Creation.{settled-IsReady}

if-Ensures :
    (P : Db → Type 0) (b : Bool) (x y : Result Db)
    → Ensures P x
    → Ensures P y
    → Ensures P (if b then x else y)
if-Ensures P true x y h k = h
if-Ensures P false x y h k = k

module _ (s : Settings) where
  module _ (depth now : ℕ) where
    -- A change to `queued` has no consequence for other tasks.
    queue-Outcome :
        (depth : ℕ) (t u : Task) (e : EventType) (d : Details) (db : Db)
        → Holds s db
        → find t.id db.tasks ≡ some u
        → u.status ≡ t.status
        → (t.status =? queued) ≡ false
        → IsReady s t queued
        → Ensures
            (λ db'. Holds s db' × Others t.id db' db)
            (set_status depth s.routing_key_task_created now t queued e d db)
    unfolding set_status after_change get_task
    queue-Outcome zero t u e d db h g k n r = tt
    queue-Outcome (suc depth) t u e d db h g k n r =
        elim (Bool-cases (can_transition t.status queued)) [
          | inr c ↦ rw (n, c) tt
          | inl c ↦
              rw (n, c)
                (
                  change-Holds s now t u queued e d db h g k c (assign-IsSettled s now t queued r),
                  unfold assign_status put_task record_event in
                      Others-replace (assign_status now t queued) (change now t queued e d db) db
                        ((change-frame now t queued e d db).tasks),
                )
        ]

    then_republish :
        (t : Task) (i : ℕ) (r : Result Db) (db : Db)
        → Ensures (λ db'. Holds s db' × Others i db' db) r
        → Ensures (λ db'. Holds s db' × Others i db' db) (r >>= λ db'. ok (republish s t db'))
    unfolding republish add_outbox
    then_republish t i (ok a) db h = h
    then_republish t i (err e) db h = tt

    requeue-Outcome :
        (e : EventType) (t : Task) (db : Db)
        → Holds s db
        → find t.id db.tasks ≡ some t
        → (t.status =? queued) ≡ false
        → Ensures (λ db'. Holds s db' × Others t.id db' db) (requeue s depth now e t db)
    unfolding requeue
    requeue-Outcome e t db h g n = then_republish t t.id _ db (
        queue-Outcome depth t t e (attempts_so_far t.attempts) db h g refl n (
          settled-IsReady s now t queued (IsSettled-find s now t.id t db h (unfold get_task in g))
            refl (λ w. absurd (cc))))

    pub requeue_due_tasks-Holds :
        (limit : ℕ) (db : Db)
        → Holds s db
        → Ensures (Holds s) (requeue_due_tasks s depth now limit db)
    unfolding requeue_due_tasks due requeue_due_task
    requeue_due_tasks-Holds limit db h =
        pass-Holds s (requeue_due_task s depth now) (is_due now) (λ t. time_or_zero t.scheduled_at)
          limit db db refl
          (λ t a k g q.
            requeue-Outcome (if t.status =? retry_scheduled then task_retried else task_queued) t a
              k g (ground arith))
          h

    requeue_dlq_task-Outcome :
        (t : Task) (db : Db)
        → Holds s db
        → find t.id db.tasks ≡ some t
        → is_dlq_due s now t ≡ true
        → Ensures (λ db'. Holds s db' × Others t.id db' db) (requeue_dlq_task s depth now t db)
    unfolding requeue_dlq_task
    requeue_dlq_task-Outcome t db h g q =
        let t' = record t { dlq_requeue_count = t.dlq_requeue_count + 1 } in
        let r = IsSettled-find s now t.id t db h (unfold get_task in g) in
        then_republish t' t.id _ db (
          queue-Outcome depth t' t task_dlq_requeued
            (dlq_cycle t'.dlq_requeue_count s.dlq_retry_max_cycles) db h g refl (ground arith)
            (record {
              not_running = refl;
              waiting = λ w. absurd (cc);
              owner = r.owner;
              lease = r.lease;
              cycles = ground arith;
            }))

    pub requeue_dlq_tasks-Holds :
        (limit : ℕ) (db : Db)
        → Holds s db
        → Ensures (Holds s) (requeue_dlq_tasks s depth now limit db)
    unfolding requeue_dlq_tasks dlq_due
    requeue_dlq_tasks-Holds limit db h =
        if-Ensures (Holds s) s.dlq_retry_enabled _ (ok db)
          (pass-Holds s (requeue_dlq_task s depth now) (is_dlq_due s now)
            (λ t. time_or_zero t.dlq_retry_at) limit db db refl requeue_dlq_task-Outcome h)
          h

    close_attempt-tasks :
        (i : ℕ) (n : Option ℕ) (db : Db)
        → (Holds s db → Holds s (close_attempt now i n db))
          × ((close_attempt now i n db).tasks ≡ db.tasks)
    unfolding finish_attempt
    close_attempt-tasks i none db = (λ h. h, refl)
    close_attempt-tasks i (some n) db = (λ h. h, refl)

    recover_running-Outcome :
        (t : Task) (db : Db)
        → Holds s db
        → find t.id db.tasks ≡ some t
        → t.status ≡ running
        → Ensures (λ db'. Holds s db' × Others t.id db' db) (recover_running s depth now t db)
    unfolding recover_running
    recover_running-Outcome t db h g k =
        let n = running_attempt t.id db.attempts in
        let c = close_attempt-tasks t.id n db in
        Outcome-weaken (λ db'. Holds s db' × Others t.id db' (close_attempt now t.id n db))
          (λ db'. Holds s db' × Others t.id db' db) Unit _
          (λ db' o. (o.0, λ j e. o.1 j e ∙ ap (find j) c.1))
          (queue-Outcome depth t t task_requeued (lease_expired t.lease_owner n)
            (close_attempt now t.id n db) (c.0 h) (ap (find t.id) c.1 ∙ g) refl (rw k)
            (settled-IsReady s now t queued
              (IsSettled-find s now t.id t db h (unfold get_task in g)) refl (λ w. absurd (cc))))

    -- A queued row that is settled has no lease to take away.
    unlock-Outcome :
        (t : Task) (db : Db)
        → Holds s db
        → find t.id db.tasks ≡ some t
        → (t.status =? running) ≡ false
        → Holds s (
            put_task
              (record t { lease_owner = none; lease_expires_at = none; updated_at = now })
              db)
          × Others t.id
              (put_task
                (record t { lease_owner = none; lease_expires_at = none; updated_at = now })
                db)
              db
    unfolding put_task
    unlock-Outcome t db h g n =
        let t' = record t { lease_owner = none; lease_expires_at = none; updated_at = now } in
        let r = IsSettled-find s now t.id t db h (unfold get_task in g) in
        (
          write-Invariant s h t' t g refl (record {
            finished = r.finished;
            unfinished = r.unfinished;
            unscheduled = r.unscheduled;
            waiting = r.waiting;
            started = r.started;
            owner = sym n;
            lease = sym n;
            cycles = r.cycles;
          }),
          Others-replace t' (put_task t' db) db refl,
        )

    recover_task-Outcome :
        (t : Task) (db : Db)
        → Holds s db
        → find t.id db.tasks ≡ some t
        → is_stuck now t ≡ true
        → Ensures (λ db'. Holds s db' × Others t.id db' db) (recover_task s depth now t db)
    unfolding recover_task
    recover_task-Outcome t db h g q = elim (Bool-cases (t.status =? running)) [
      | inl e ↦ rw e (
          then_republish t t.id _ db
            (recover_running-Outcome t db h g (eq_of_=? t.status running e)))
      | inr e ↦ rw e (
          then_republish t t.id
            (ok (
              put_task (record t { lease_owner = none; lease_expires_at = none; updated_at = now })
                db))
            db (unlock-Outcome t db h g e))
    ]

    pub recover_stuck_tasks-Holds :
        (limit : ℕ) (db : Db)
        → Holds s db
        → Ensures (Holds s) (recover_stuck_tasks s depth now limit db)
    unfolding recover_stuck_tasks stuck
    recover_stuck_tasks-Holds limit db h =
        pass-Holds s (recover_task s depth now) (is_stuck now)
          (λ t. time_or_zero t.lease_expires_at) limit
          (record db { workers = mark_dead (now - s.worker_heartbeat_timeout) db.workers }) db refl
          recover_task-Outcome h

  republish_all-Holds : (ts : List Task) (db : Db) → Holds s db → Holds s (republish_all s ts db)
  unfolding republish_all republish add_outbox
  republish_all-Holds [] db h = h
  republish_all-Holds (t ∷ ts) db h = republish_all-Holds ts (republish s t db) h

  pub requeue_orphaned_queued_tasks-Holds :
      (now limit : ℕ) (db : Db)
      → Holds s db
      → Holds s (requeue_orphaned_queued_tasks s now limit db).0
  unfolding requeue_orphaned_queued_tasks
  requeue_orphaned_queued_tasks-Holds now limit db h =
      republish_all-Holds (orphaned s now limit db) db h
