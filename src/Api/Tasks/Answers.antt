-- ===== src/Api/Tasks/Answers.antt =====
-- What `retry_task` and `cancel_task` of backend/app/api/routes/tasks.py answer on each branch.
use distributed_task_platfor.Prelude.{
  ℕ, String, suc, ◌≤◌, ◌≡◌, refl, sym, ap, ◌∙◌, true, false, Option, none, some, List, inl, inr,
  Bool-cases, arith, if◌then◌else◌,
}
use distributed_task_platfor.Model.Rows.{Task, Details, empty, attempts_so_far}
use distributed_task_platfor.Model.Status.{
  Status, created, ◌=?◌, EventType, queued, cancelled, task_retried, task_cancelled, elem,
  retryable, cancelable, can_transition,
}
use distributed_task_platfor.Model.Settings.{Settings}
use distributed_task_platfor.Model.Db.{Db, get_task, add_outbox}
use distributed_task_platfor.Model.Db.Rows.{id-find}
use distributed_task_platfor.Model.Result.{
  Result, ok, err, task_conflict, Returns, Outcome-weaken, Outcome-bind, ◌>>=◌,
}
use distributed_task_platfor.Auth.{User}
use distributed_task_platfor.StatusChange.{assign_status, set_status}
use distributed_task_platfor.StatusChange.Induction.{get_task-id}
use distributed_task_platfor.StatusChange.Total.{blocked, blocked-change_le}
use distributed_task_platfor.StatusChange.Children.{set_status-Returns}
use distributed_task_platfor.Tasks.{retry_task, cancel_row, republish}
use distributed_task_platfor.Tasks.Decisions.{
  retry-permitted, cancel-permitted, by_row, retry-by_row, cancel-by_row,
}
use distributed_task_platfor.Api.{
  Site, Request, External, Body, task_info, Reply, answer, http_error,
}
use distributed_task_platfor.Api.Tasks.{task_body, changed_reply, retry_task_as, cancel_task_as}

-- The status of a response, and the status of the task that its body shows.
abbrev pub shown : Body → Option Status
shown (task_info t) = some t.status
shown _ = none

abbrev pub summary : Reply (Site × Body) → ℕ × Option Status
summary (answer code (site, body)) = (code, shown body)
summary (http_error code) = (code, none)

-- What is to be answered: 404 for a task that is not there, 409 for one whose status does not permit
-- the change, and otherwise 200 with the task in its new status.
abbrev pub expected : List Status → Status → Option Task → ℕ × Option Status
expected permitted new none = (404, none)
expected permitted new (some t) = if elem t.status permitted then (200, some new) else (409, none)

module _ (s : Settings) (x : External) (action : String) (id : ℕ) (req : Request) (u : User)
    (site : Site) where
  abbrev reply : Result (Option Db) → Reply (Site × Body)
  reply r = changed_reply s x action id req u site r

  -- A change that returns with the row in its new status.
  changed-summary :
      (t : Task) (new : Status) (r : Result Db)
      → t.id ≡ id
      → Returns (λ db. (v : Task) × (get_task t.id db ≡ some v) × (v.status ≡ new)) r
      → summary (reply (r >>= λ db. ok (some db))) ≡ (200, some new)
  changed-summary t new (ok db) e (v, g, k) =
      let row : get_task id db ≡ some v = ap (λ i. get_task i db) (sym e) ∙ g in
      ap (λ o. (200, shown (task_body o))) row ∙ ap (λ st. (200, some st)) k
  changed-summary t new (err y) e h = absurd h

module _ (s : Settings) (x : External) where
  -- A permitted change returns, and the row has the new status.
  returned :
      (depth now : ℕ) (t : Task) (new : Status) (e : EventType) (d : Details) (db : Db)
      → get_task t.id db ≡ some t
      → can_transition t.status new ≡ true
      → (new =? created) ≡ false
      → blocked db ≤ depth
      → Returns
          (λ b. (v : Task) × (get_task t.id b ≡ some v) × (v.status ≡ new))
          (set_status (suc depth) s.routing_key_task_created now t new e d db)
  unfolding assign_status
  returned depth now t new e d db g c n h =
      Outcome-weaken _ (λ b. (v : Task) × (get_task t.id b ≡ some v) × (v.status ≡ new)) ⊥ _
        (λ b k. (assign_status now t new, k.0, refl))
        (set_status-Returns s.routing_key_task_created now depth t t new e d db g c
          (omega (arith, h, blocked-change_le now t new e d db n)))

  retry-Returns :
      (depth now id : ℕ) (t : Task) (db : Db)
      → get_task id db ≡ some t
      → elem t.status retryable ≡ true
      → blocked db ≤ depth
      → Returns
          (λ b. (v : Task) × (get_task t.id b ≡ some v) × (v.status ≡ queued))
          (retry_task s (suc depth) now t db)
  unfolding retry_task republish add_outbox get_task
  retry-Returns depth now id t db g e h = rw e (
      Outcome-bind (λ b. (v : Task) × (get_task t.id b ≡ some v) × (v.status ≡ queued))
        (λ b. (v : Task) × (get_task t.id b ≡ some v) × (v.status ≡ queued)) ⊥
        (set_status (suc depth) s.routing_key_task_created now t queued task_retried
          (attempts_so_far t.attempts) db)
        (λ b. ok (republish s t b))
        (returned depth now t queued task_retried (attempts_so_far t.attempts) db
          (get_task-id id db t g) (retry-permitted t.status e) refl h)
        (λ b k. k))

  cancel-Returns :
      (depth now id : ℕ) (t : Task) (db : Db)
      → get_task id db ≡ some t
      → elem t.status cancelable ≡ true
      → blocked db ≤ depth
      → Returns
          (λ b. (v : Task) × (get_task t.id b ≡ some v) × (v.status ≡ cancelled))
          (cancel_row s (suc depth) now t db)
  unfolding cancel_row
  cancel-Returns depth now id t db g e h = rw e (
      returned depth now t cancelled task_cancelled empty db (get_task-id id db t g)
        (cancel-permitted t.status e) refl h)

  -- Both routes: the row decides.
  module _ (action : String) (id : ℕ) (req : Request) (u : User) (site : Site)
      (permitted : List Status) (new : Status) (change : Task → Db → Result Db)
      (refused : (t : Task)
        → elem t.status permitted ≡ false
        → change t site.db ≡ err task_conflict)
      (done : (t : Task)
        → get_task id site.db ≡ some t
        → elem t.status permitted ≡ true
        → Returns
            (λ b. (v : Task) × (get_task t.id b ≡ some v) × (v.status ≡ new))
            (change t site.db)) where
    row-summary :
        (o : Option Task)
        → get_task id site.db ≡ o
        → summary (reply s x action id req u site (by_row change site.db o))
          ≡ expected permitted new o
    unfolding get_task
    row-summary none g = refl
    row-summary (some t) g = elim (Bool-cases (elem t.status permitted)) [
      | inl e ↦ rw e (
          changed-summary s x action id req u site t new (change t site.db)
            (id-find id site.db.tasks t g) (done t g e))
      | inr e ↦ rw e (
          ap (λ r. summary (reply s x action id req u site (r >>= λ db. ok (some db))))
            (refused t e))
    ]

-- For every task and every graph of dependencies, if the bound on the depth of the calls is above the
-- number of tasks in `created`: a retry and a cancellation by an operator are answered with 404 for a
-- task that is not there, with 409 for a task whose status is not in `RETRYABLE` or `CANCELABLE`, and
-- otherwise with 200 and the task in `queued` or `cancelled`. No other exception occurs.
pub work_answers :
    (s : Settings) (x : External) (depth id : ℕ) (req : Request) (u : User) (site : Site)
    → blocked site.db ≤ depth
    → (summary (retry_task_as s x (suc depth) id req u site)
        ≡ expected retryable queued (get_task id site.db))
      × (summary (cancel_task_as s x (suc depth) id req u site)
          ≡ expected cancelable cancelled (get_task id site.db))
unfolding retry_task_as cancel_task_as
work_answers s x depth id req u site h = (
  ap (λ r. summary (reply s x "task.retry" id req u site r))
        (retry-by_row s (suc depth) req.now id site.db)
      ∙ row-summary s x "task.retry" id req u site retryable queued
          (retry_task s (suc depth) req.now) (λ t e. unfold retry_task in rw e refl)
          (λ t g e. retry-Returns s x depth req.now id t site.db g e h) _ refl,
  ap (λ r. summary (reply s x "task.cancel" id req u site r))
        (cancel-by_row s (suc depth) req.now id site.db)
      ∙ row-summary s x "task.cancel" id req u site cancelable cancelled
          (cancel_row s (suc depth) req.now) (λ t e. unfold cancel_row in rw e refl)
          (λ t g e. cancel-Returns s x depth req.now id t site.db g e h) _ refl,
)
