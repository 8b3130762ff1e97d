-- ===== src/Tasks/Decisions.antt =====
-- `retry_task` and `cancel_task` of backend/app/services/tasks.py by the row that they read.
use distributed_task_platfor.Prelude.{
  ℕ, ◌≡◌, refl, true, Option, none, some, inl, inr, Option-cases,
}
use distributed_task_platfor.Model.Rows.{Task}
use distributed_task_platfor.Model.Status.{
  Status, queued, cancelled, elem, retryable, cancelable, can_transition,
}
use distributed_task_platfor.Model.Settings.{Settings}
use distributed_task_platfor.Model.Db.{Db, get_task}
use distributed_task_platfor.Model.Result.{Result, ok, ◌>>=◌}
use distributed_task_platfor.Tasks.{retry_task, manual_retry, cancel_row, cancel_task}

-- The statuses that permit a change have a transition to the new status.
pub retry-permitted : (st : Status) → elem st retryable ≡ true → can_transition st queued ≡ true
retry-permitted Status.created h = cc
retry-permitted Status.queued h = cc
retry-permitted Status.running h = cc
retry-permitted Status.retry_scheduled h = cc
retry-permitted Status.scheduled h = cc
retry-permitted Status.success h = cc
retry-permitted Status.failed h = refl
retry-permitted Status.cancelled h = refl
retry-permitted Status.dead_letter h = refl
retry-permitted Status.timeout h = cc

pub cancel-permitted :
    (st : Status) → elem st cancelable ≡ true → can_transition st cancelled ≡ true
cancel-permitted Status.created h = refl
cancel-permitted Status.queued h = refl
cancel-permitted Status.running h = refl
cancel-permitted Status.retry_scheduled h = refl
cancel-permitted Status.scheduled h = refl
cancel-permitted Status.success h = cc h
cancel-permitted Status.failed h = cc h
cancel-permitted Status.cancelled h = cc h
cancel-permitted Status.dead_letter h = cc h
cancel-permitted Status.timeout h = cc h

-- The two services, by the row that they read.
abbrev pub by_row : (Task → Db → Result Db) → Db → Option Task → Result (Option Db)
by_row change db none = ok none
by_row change db (some t) = change t db >>= λ db'. ok (some db')

module _ (s : Settings) where
  pub retry-by_row :
      (depth now id : ℕ) (db : Db)
      → manual_retry s depth now id db ≡ by_row (retry_task s depth now) db (get_task id db)
  unfolding manual_retry
  retry-by_row depth now id db = elim (Option-cases (get_task id db)) [
    | inl g ↦ rw (g, manual_retry) refl
    | inr (t, g) ↦ rw (g, manual_retry) refl
  ]

  pub cancel-by_row :
      (depth now id : ℕ) (db : Db)
      → cancel_task s depth now id db ≡ by_row (cancel_row s depth now) db (get_task id db)
  unfolding cancel_task
  cancel-by_row depth now id db = elim (Option-cases (get_task id db)) [
    | inl g ↦ rw (g, cancel_task) refl
    | inr (t, g) ↦ rw (g, cancel_task) refl
  ]
