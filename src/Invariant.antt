-- ===== src/Invariant.antt =====
-- What holds of the database between two transactions: the rows of tasks are consistent, and the
-- log of events determines every task's status.
pub mod History
pub mod Primitives
pub mod Steps
pub mod Creation
pub mod Runs
pub mod Acquired
pub mod Claim
pub mod Passes
pub mod Coordinator
pub mod Upkeep
pub mod Reach
pub mod Sequences
pub mod Loops
pub mod Service
use distributed_task_platfor.Prelude.{
  ℕ, suc, ◌≤◌, ◌<◌, ◌≡◌, Bool, true, false, not, ◌&&◌, ◌||◌, Option, none, some, List, [], ◌∷◌,
  ◌==◌, is_none, is_some, All, if◌then◌else◌,
}
use distributed_task_platfor.Model.Status.{
  Status, created, queued, running, ◌=?◌, elem, terminal, can_transition,
}
use distributed_task_platfor.Model.Rows.{Task, TaskEvent}
use distributed_task_platfor.Model.Settings.{Settings}
use distributed_task_platfor.Model.Db.{Db, find}
use distributed_task_platfor.Model.Db.Distinct.{Distinct}
use distributed_task_platfor.Scheduler.{due_statuses}

-- The status that the log gives to task `i`, after the status `acc`.
abbrev pub follow : ℕ → Option Status → TaskEvent → Option Status
follow i acc e = if e.task_id == i then some e.new_status else acc

abbrev pub status_after : ℕ → Option Status → List TaskEvent → Option Status
status_after i acc [] = acc
status_after i acc (e ∷ es) = status_after i (follow i acc e) es

-- The first event of a task says `created`. A later one starts from the status of the one before,
-- and keeps it or makes a transition that `VALID_TRANSITIONS` permits.
abbrev pub legal_step : Option Status → TaskEvent → Bool
legal_step none e = (e.old_status =? created) && (e.new_status =? created)
legal_step (some s) e =
    (s =? e.old_status)
    && ((e.old_status =? e.new_status) || can_transition e.old_status e.new_status)

abbrev pub legal : ℕ → Option Status → List TaskEvent → Bool
legal i acc [] = true
legal i acc (e ∷ es) = (not (e.task_id == i) || legal_step acc e) && legal i (follow i acc e) es

abbrev pub status_of : Option Task → Option Status
status_of none = none
status_of (some t) = some t.status

-- A task with a terminal status has its time of finish, a queued one has neither that nor a time to
-- wait for, a waiting one has such a time, and the running ones are exactly those with a lease.
pub record IsSettled (s : Settings) (t : Task) : Type 0 where
  pub finished : elem t.status terminal ≡ true → is_some t.finished_at ≡ true
  pub unfinished : (t.status =? queued) ≡ true → is_none t.finished_at ≡ true
  pub unscheduled : (t.status =? queued) ≡ true → is_none t.scheduled_at ≡ true
  pub waiting : elem t.status due_statuses ≡ true → is_some t.scheduled_at ≡ true
  pub started : (t.status =? running) ≡ true → is_some t.started_at ≡ true
  pub owner : is_some t.lease_owner ≡ (t.status =? running)
  pub lease : is_some t.lease_expires_at ≡ (t.status =? running)
  pub cycles : t.dlq_requeue_count ≤ s.dlq_retry_max_cycles

pub record Invariant (s : Settings) (tasks : List Task) (events : List TaskEvent) (next : ℕ)
    : Type 0 where
  pub settled : All (IsSettled s) tasks
  pub ids : All (λ t. t.id < next) tasks
  pub distinct : Distinct tasks
  pub agrees : (i : ℕ) → status_after i none events ≡ status_of (find i tasks)
  pub legals : (i : ℕ) → legal i none events ≡ true

abbrev pub Holds : Settings → Db → Type 0
Holds s db = Invariant s db.tasks db.events db.next_task_id
