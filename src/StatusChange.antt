-- ===== src/StatusChange.antt =====
-- `set_status` of backend/app/services/tasks.py, the single place where a status changes, with the
-- part of backend/app/services/dependencies.py that it calls and that calls it again:
-- `advance_children`, `_unblock`, `_cancel_blocked`.
pub mod Frame
pub mod Induction
pub mod Total
pub mod Children
pub mod Cancelled
pub mod Parents
use distributed_task_platfor.Prelude.{
  ℕ, zero, suc, String, Bool, true, false, not, ◌&&◌, Option, none, some, List, [], ◌∷◌, ◌++◌,
  member, ◌==◌, is_none, if◌then◌else◌,
}
use distributed_task_platfor.Model.Status.{
  Status, created, queued, running, success, cancelled, EventType, task_unblocked, task_cancelled,
  ◌=?◌, elem, terminal, can_transition,
}
use distributed_task_platfor.Model.Rows.{
  Task, Details, unblocked_by, parent_terminal, Message, TaskDependency,
}
use distributed_task_platfor.Model.Db.{Db, get_task, put_task, add_outbox}
use distributed_task_platfor.Model.Result.{
  Error, Result, ok, err, invalid_transition, recursion, ◌>>=◌,
}
use distributed_task_platfor.Webhooks.Enqueue.{enqueue_for}

-- The assignments of `set_status` to the task's columns, from the first test to `task.status = …`.
unfoldable pub assign_status : ℕ → Task → Status → Task
assign_status now t new = record t {
  finished_at =
      if new =? queued
      then none
      else if elem new terminal && is_none t.finished_at
      then some now
      else t.finished_at;
  started_at = if new =? running && is_none t.started_at then some now else t.started_at;
  scheduled_at = if new =? queued then none else t.scheduled_at;
  lease_owner = if t.status =? running && not (new =? running) then none else t.lease_owner;
  lease_expires_at =
      if t.status =? running && not (new =? running) then none else t.lease_expires_at;
  status = new;
  updated_at = now;
}

-- `_record_event`: the old status is the one that the task still has.
unfoldable pub record_event : Task → EventType → Status → Details → Db → Db
record_event t e new d db = record db {
  events =
      db.events
      ++ record {
        task_id = t.id;
        event_type = e;
        old_status = t.status;
        new_status = new;
        details = d;
      }
        ∷ [];
}

-- A permitted change of status up to the webhooks: the event, the flushed row, the deliveries.
unfoldable pub change : ℕ → Task → Status → EventType → Details → Db → Db
change now t new e d db =
    let t' = assign_status now t new in
    enqueue_for now e t' (put_task t' (record_event t e new d db))

-- The body of every `task_created` message.
abbrev pub task_message : Task → Bool → Message
task_message t reattempt = record {
  task_id = t.id;
  task_type = t.task_type;
  payload = t.payload;
  priority = t.priority;
  reattempt = reattempt;
}

abbrev pub children_of_rows : ℕ → List TaskDependency → List ℕ
children_of_rows i [] = []
children_of_rows i (d ∷ ds) =
    let rest = children_of_rows i ds in
    if d.parent_task_id == i then d.child_task_id ∷ rest else rest

abbrev pub parents_of_rows : ℕ → List TaskDependency → List ℕ
parents_of_rows i [] = []
parents_of_rows i (d ∷ ds) =
    let rest = parents_of_rows i ds in
    if d.child_task_id == i then d.parent_task_id ∷ rest else rest

unfoldable pub children_of : ℕ → Db → List ℕ
children_of i db = children_of_rows i db.dependencies

unfoldable pub parents_of : ℕ → Db → List ℕ
parents_of i db = parents_of_rows i db.dependencies

-- `set(select(Task.status).where(Task.id.in_(ids)))`, with no status twice.
abbrev pub statuses_of : List ℕ → List Task → List Status
statuses_of ids [] = []
statuses_of ids (t ∷ ts) =
    let rest = statuses_of ids ts in
    if member t.id ids && not (elem t.status rest) then t.status ∷ rest else rest

-- `len(statuses) == 1 and "success" in statuses`.
abbrev pub only_success : List Status → Bool
only_success (s ∷ []) = s =? success
only_success _ = false

abbrev pub succeeded : List ℕ → List Task → Bool
succeeded [] ts = true
succeeded (p ∷ ps) ts = only_success (statuses_of (p ∷ ps) ts)

unfoldable pub all_parents_succeeded : ℕ → Db → Bool
all_parents_succeeded i db = succeeded (parents_of i db) db.tasks

-- `except InvalidTransitionError`: `set_status` raises it before it changes anything.
abbrev pub catch_invalid : Db → Result Db → Result Db
catch_invalid db (ok db') = ok db'
catch_invalid db (err invalid_transition) = ok db
catch_invalid db (err e) = err e

abbrev pub SetStatus : Type 0
SetStatus = Task → Status → EventType → Details → Db → Result Db

unfoldable pub cancel_blocked : SetStatus → Task → ℕ → Status → Db → Result Db
cancel_blocked set child parent_id parent_status db =
    catch_invalid db
      (set child cancelled task_cancelled (parent_terminal parent_id parent_status) db)

module _ (key : String) (set : SetStatus) where
  unfoldable pub unblock : Task → ℕ → Db → Result Db
  unblock child by db = do
    db' ← set child queued task_unblocked (unblocked_by by) db
    ok (add_outbox key (task_message child false) db')

  -- The body of the loop of `advance_children`, once the child's row is read.
  unfoldable pub advance_child : Task → Option Task → Db → Result Db
  advance_child t none db = ok db
  advance_child t (some child) db =
      if not (child.status =? created)
      then ok db
      else if t.status =? success
      then (if all_parents_succeeded child.id db then unblock child t.id db else ok db)
      else cancel_blocked set child t.id t.status db

  unfoldable pub advance_each : Task → List ℕ → Db → Result Db
  advance_each t [] db = ok db
  advance_each t (c ∷ cs) db = do db' ← advance_child t (get_task c db) db; advance_each t cs db'

  unfoldable pub advance_children : Task → Db → Result Db
  advance_children t db = advance_each t (children_of t.id db) db

  -- What follows a change: the children advance after a terminal status.
  unfoldable pub after_change : Task → Status → Db → Result Db
  after_change t new db = if elem new terminal then advance_children t db else ok db

-- A cancelled child cancels its own children, so `set_status` calls itself through
-- `advance_children`. The first argument bounds the depth of these calls, as the interpreter's
-- recursion limit does. On an unchanged status the session still flushes what was assigned before.
unfoldable pub set_status : ℕ → String → ℕ → SetStatus
set_status zero key now t new e d db = err recursion
set_status (suc depth) key now t new e d db =
    if t.status =? new
    then ok (put_task t db)
    else if not (can_transition t.status new)
    then err invalid_transition
    else after_change key (set_status depth key now) (assign_status now t new) new
        (change now t new e d db)
