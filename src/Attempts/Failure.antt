-- ===== src/Attempts/Failure.antt =====
-- What `record_failure` of backend/app/worker/services/attempts.py decides for a running task.
use mathlib.Core.Path.{subst}
use distributed_task_platfor.Prelude.{
  ℕ, suc, ◌+◌, ◌≤◌, String, ◌≡◌, refl, sym, ap, ◌∙◌, Bool, true, false, ◌&&◌, Option, none, some,
  arith, ltb, inl, inr, Bool-cases, truncate, if◌then◌else◌,
}
use distributed_task_platfor.Model.Status.{
  Status, EventType, ◌=?◌, can_transition, task_retry_scheduled, task_dead_lettered, task_failed,
}
use distributed_task_platfor.Model.Rows.{Task, Details, failure, retry}
use distributed_task_platfor.Model.Settings.{Settings}
use distributed_task_platfor.Model.Db.{Db, find, replace, get_task, put_task}
use distributed_task_platfor.Model.Result.{
  Result, ok, err, Returns, Outcome, Outcome-bind, Outcome-weaken,
}
use distributed_task_platfor.StatusChange.{assign_status, change, set_status}
use distributed_task_platfor.StatusChange.Total.{blocked, blocked-change_le}
use distributed_task_platfor.StatusChange.Children.{set_status-Returns}
use distributed_task_platfor.Model.Db.Rows.{id-find, find-replace_self}
use distributed_task_platfor.Tasks.{compute_retry_delay}
use distributed_task_platfor.Attempts.{
  assigned, assigned_text, set_held, retry_after, with_error, finish_attempt, fail, if_running,
  schedule_retry, give_up, fail_task, record_failure, modify_task, next_dlq_retry,
}

-- A running task leaves that status.
pub leaves_running :
    (s : Settings) (depth now : ℕ) (t u : Task) (new : Status) (e : EventType) (d : Details)
    (db : Db)
    → get_task t.id db ≡ some u
    → t.status ≡ Status.running
    → can_transition Status.running new ≡ true
    → (new =? Status.created) ≡ false
    → blocked db ≤ depth
    → Returns
        (λ db'. get_task t.id db' ≡ some (assign_status now t new))
        (set_status (suc depth) s.routing_key_task_created now t new e d db)
leaves_running s depth now t u new e d db g k c n b =
    Outcome-weaken
      (λ db'.
        (get_task t.id db' ≡ some (assign_status now t new))
        × (blocked db' ≤ blocked (change now t new e d db)))
      (λ db'. get_task t.id db' ≡ some (assign_status now t new)) ⊥ _ (λ db' h. h.0)
      (set_status-Returns s.routing_key_task_created now depth t u new e d db g (rw k c)
        (omega (arith, b, blocked-change_le now t new e d db n)))

abbrev pub or_zero : Option ℕ → ℕ
or_zero none = 0
or_zero (some d) = d

-- The row of a task that is to be tried again, of one that is given up, and of one whose error is
-- permanent. `held` is the object of the worker since its claim, `row` the row that it is written to.
unfoldable pub after_failure : Settings → ℕ → String → Bool → ℕ → Task → Task → Task
after_failure s now error retryable delay held row =
    let u = record row { last_error = assigned_text held.last_error (some error) row.last_error } in
    if retryable && ltb held.attempts held.max_attempts
    then assign_status now (record u { scheduled_at = some (now + delay) }) Status.retry_scheduled
    else if retryable
    then record (assign_status now u Status.dead_letter) {
      dlq_retry_at =
          assigned held.dlq_retry_at
            (if s.dlq_retry_enabled && ltb held.dlq_requeue_count s.dlq_retry_max_cycles
              then some (now + s.dlq_retry_interval)
              else none)
            row.dlq_retry_at;
    }
    else assign_status now u Status.failed

modified :
    (id : ℕ) (f : Task → Task) (t : Task) (db : Db)
    → get_task id db ≡ some t
    → (f t).id ≡ t.id
    → Returns (λ db'. get_task id db' ≡ some (f t)) (modify_task id f db)
unfolding modify_task get_task put_task
modified id f t db g e =
    let i : (f t).id ≡ id = e ∙ id-find id db.tasks t g in
    rw g (
      subst (λ j. find j (replace (f t) db.tasks) ≡ some (f t)) i
        (find-replace_self (f t) db.tasks (subst (λ j. find j db.tasks ≡ some t) (sym i) g)))

pub set_held-Returns :
    (s : Settings) (depth now : ℕ) (held t u : Task) (new : Status) (e : EventType) (d : Details)
    (db : Db)
    → get_task u.id db ≡ some u
    → t.id ≡ u.id
    → t.status ≡ Status.running
    → t.attempts ≡ u.attempts
    → can_transition Status.running new ≡ true
    → (new =? Status.created) ≡ false
    → blocked db ≤ depth
    → Returns
        (λ db'. get_task u.id db' ≡ some (assign_status now t new))
        (set_held s (suc depth) now held u t new e d db)
unfolding set_held
set_held-Returns s depth now held t u new e d db g i k a c n b =
    let o = record t { attempts = held.attempts } in
    let v = assign_status now o new in
    let r =
      leaves_running s depth now o u new e d db (subst (λ j. get_task j db ≡ some u) (sym i) g) k c
        n b in
    let back : (record v { attempts = u.attempts }) ≡ assign_status now t new =
      unfold assign_status in ap (λ m. record (assign_status now t new) { attempts = m }) (sym a) in
    Outcome-bind (λ db'. get_task u.id db' ≡ some v)
      (λ db'. get_task u.id db' ≡ some (assign_status now t new)) ⊥ _ _
      (subst
        (λ j.
          Returns (λ db'. get_task j db' ≡ some v)
            (set_status (suc depth) s.routing_key_task_created now o new e d db))
        i r)
      (λ db' h.
        subst
          (λ x.
            Returns (λ d'. get_task u.id d' ≡ some x)
              (modify_task u.id (λ w. record w { attempts = u.attempts }) db'))
          back (modified u.id (λ w. record w { attempts = u.attempts }) v db' h refl))

-- What returns may also be allowed to raise.
pub may_raise : (P : Db → Type 0) (E : Type 0) (r : Result Db) → Returns P r → Outcome P E r
may_raise P E (ok db) h = h
may_raise P E (err e) h = elim h [ ]

module _ (s : Settings) (depth now n : ℕ) (error : String) (held t : Task) (db : Db)
    (found : get_task t.id db ≡ some t) (runs : t.status ≡ Status.running)
    (enough : blocked db ≤ depth) where
  abbrev erred : Task
  erred = with_error s (suc depth) now held error t

  gives_up :
      Returns
        (λ db'.
          get_task t.id db'
          ≡ some (record (assign_status now erred Status.dead_letter) {
            dlq_retry_at =
                assigned held.dlq_retry_at (next_dlq_retry s (suc depth) now held) t.dlq_retry_at;
          }))
        (give_up s (suc depth) now true n error held t erred db)
  unfolding give_up
  gives_up =
      let v = assign_status now erred Status.dead_letter in
      let f : Task → Task = λ w. record w {
        dlq_retry_at =
            assigned held.dlq_retry_at (next_dlq_retry s (suc depth) now held) t.dlq_retry_at;
      } in
      Outcome-bind (λ db'. get_task t.id db' ≡ some v) (λ db'. get_task t.id db' ≡ some (f v)) ⊥ _ _
        (set_held-Returns s depth now held erred t Status.dead_letter task_dead_lettered
          (failure n error) db found refl runs refl refl refl enough)
        (λ db' g. unfold assign_status in modified t.id f v db' g refl)

  -- The delay of the retry, or the exception that its computation raises.
  abbrev delay : Option ℕ
  delay = compute_retry_delay s held.attempts

  retries :
      (o : Option ℕ)
      → Outcome
          (λ db'.
            get_task t.id db'
            ≡ some (
                assign_status now
                  (record erred { scheduled_at = some (now + or_zero o) })
                  Status.retry_scheduled))
          (o ≡ none)
          (retry_after s (suc depth) now n held t erred db o)
  retries none = refl
  retries (some d) =
      let u = record erred { scheduled_at = some (now + d) } in
      may_raise (λ db'. get_task t.id db' ≡ some (assign_status now u Status.retry_scheduled))
        (some d ≡ none)
        (set_held s (suc depth) now held t u Status.retry_scheduled task_retry_scheduled
          (retry n d (now + d)) db)
        (set_held-Returns s depth now held u t Status.retry_scheduled task_retry_scheduled
          (retry n d (now + d)) db found refl runs refl refl refl enough)

  decides :
      (retryable : Bool)
      → Outcome
          (λ db'.
            get_task t.id db' ≡ some (after_failure s now error retryable (or_zero delay) held t))
          (delay ≡ none)
          (fail_task s (suc depth) now retryable n error held t db)
  unfolding fail_task after_failure
  decides false =
      unfold give_up in
      may_raise (λ db'. get_task t.id db' ≡ some (assign_status now erred Status.failed))
        (delay ≡ none)
        (set_held s (suc depth) now held t erred Status.failed task_failed (failure n error) db)
        (set_held-Returns s depth now held erred t Status.failed task_failed (failure n error) db
          found refl runs refl refl refl enough)
  decides true = elim (Bool-cases (ltb held.attempts held.max_attempts)) [
    | inl e ↦ rw e (unfold schedule_retry in retries delay)
    | inr e ↦ rw e (
        may_raise
          (λ db'.
            get_task t.id db'
            ≡ some (record (assign_status now erred Status.dead_letter) {
              dlq_retry_at =
                  assigned held.dlq_retry_at (next_dlq_retry s (suc depth) now held) t.dlq_retry_at;
            }))
          (delay ≡ none) (give_up s (suc depth) now true n error held t erred db) gives_up)
  ]

pub while_running :
    (o : Option Task) (t : Task) (k : Task → Result Db) (db : Db)
    → o ≡ some t
    → t.status ≡ Status.running
    → if_running o k db ≡ k t
while_running o t k db g r =
    let runs : (t.status =? Status.running) ≡ true = rw r refl in
    ap (λ p. if_running p k db) g ∙ ap (λ b. if b then k t else ok db) runs

-- `record_failure` for a task that is running, with any graph of dependencies and under a bound on the
-- depth of calls above the number of tasks in `created`: it decides by `held`, the object that the
-- worker's session has since its claim, whatever other workers did with the row meanwhile. The row is
-- then in `retry_scheduled`, due after the backoff of the object's attempts, if the error is retryable
-- and the object has attempts left; in `dead_letter`, with a time for the next DLQ cycle if cycles are
-- enabled and the object has some left, if the error is retryable and it has no attempt left; and in
-- `failed` if the error is not retryable. The error is stored up to 2,000 characters; a column keeps
-- the row's value where the object held the assigned one already, and the row keeps its attempts.
-- The only exception is that of the computation of the backoff.
pub failure_decides :
    (s : Settings) (depth now id n : ℕ) (held : Task) (error : String) (retryable : Bool)
    (row : Task) (db : Db)
    → get_task id db ≡ some row
    → row.status ≡ Status.running
    → blocked db ≤ depth
    → let delay = compute_retry_delay s held.attempts in
      Outcome
        (λ db'.
          get_task id db'
          ≡ some (after_failure s now (truncate 2000 error) retryable (or_zero delay) held row))
        (delay ≡ none)
        (record_failure s (suc depth) now id n held error retryable db)
unfolding record_failure finish_attempt get_task
failure_decides s depth now id n held error retryable t db g k b =
    let e : t.id ≡ id = id-find id db.tasks t g in
    let short = truncate 2000 error in
    let delay = compute_retry_delay s held.attempts in
    let db' = finish_attempt id n (fail now short) db in
    let Done : ℕ → Result Db → Type 0 = λ j.
      Outcome
        (λ b. get_task j b ≡ some (after_failure s now short retryable (or_zero delay) held t))
        (delay ≡ none) in
    let g' : find t.id db.tasks ≡ some t = subst (λ j. find j db.tasks ≡ some t) (sym e) g in
    subst (Done id)
      (sym (
        while_running (find id db.tasks) t
          (λ u. fail_task s (suc depth) now retryable n short held u db') db' g k))
      (subst (λ j. Done j (fail_task s (suc depth) now retryable n short held t db')) e
        (decides s depth now n short held t db' g' k b retryable))
