-- ===== src/Stats.antt =====
-- backend/app/services/stats.py: the counts of tasks, attempts and workers.
pub mod Totals
use distributed_task_platfor.Prelude.{
  ℕ, suc, ◌+◌, String, Bool, List, [], ◌∷◌, ◌==◌, ◌=ₛ◌, count, if◌then◌else◌,
}
use distributed_task_platfor.Model.Status.{Status, Priority, critical, high, normal, low, ◌=?◌}
use distributed_task_platfor.Model.Rows.{Task, AttemptStatus, Attempt, WorkerStatus, Worker}
use distributed_task_platfor.Model.Db.{Db}
use distributed_task_platfor.Batches.{task_statuses}
use distributed_task_platfor.Tasks.Listing.{rank}

-- A dictionary from labels to counts.
abbrev pub Counts : Type 0 → Type 0
Counts L = List (L × ℕ)

-- `sum(counts.values())`.
abbrev pub total : {L : Type 0} → Counts L → ℕ
total [] = 0
total ((l, n) ∷ c) = n + total c

-- A count for each label of a table of labels, 0 for those that no row has.
abbrev pub counts_of : {L R : Type 0} → (L → R → Bool) → List L → List R → Counts L
counts_of is [] rows = []
counts_of is (l ∷ ls) rows = (l, count (is l) rows) ∷ counts_of is ls rows

-- `group_by(Task.task_type)`: one more row of a type.
abbrev pub count_type : String → Counts String → Counts String
count_type t [] = (t, 1) ∷ []
count_type t ((u, n) ∷ c) = if u =ₛ t then (u, suc n) ∷ c else (u, n) ∷ count_type t c

abbrev pub by_type : List Task → Counts String
by_type [] = []
by_type (t ∷ ts) = count_type t.task_type (by_type ts)

abbrev pub priorities : List Priority
priorities = critical ∷ high ∷ normal ∷ low ∷ []

abbrev pub attempt_rank : AttemptStatus → ℕ
attempt_rank AttemptStatus.running = 0
attempt_rank AttemptStatus.success = 1
attempt_rank AttemptStatus.failed = 2

abbrev pub worker_rank : WorkerStatus → ℕ
worker_rank WorkerStatus.alive = 0
worker_rank WorkerStatus.dead = 1

abbrev pub attempt_statuses : List AttemptStatus
attempt_statuses = AttemptStatus.running ∷ AttemptStatus.success ∷ AttemptStatus.failed ∷ []

abbrev pub worker_statuses : List WorkerStatus
worker_statuses = WorkerStatus.alive ∷ WorkerStatus.dead ∷ []

pub record Stats : Type 0 where
  pub tasks_total : ℕ
  pub tasks_by_status : Counts Status
  pub tasks_by_priority : Counts Priority
  pub tasks_by_type : Counts String
  pub attempts_total : ℕ
  pub attempts_by_status : Counts AttemptStatus
  pub workers_total : ℕ
  pub workers_by_status : Counts WorkerStatus

unfoldable pub build_stats : Db → Stats
build_stats db =
    let by_status = counts_of (λ s (t : Task). t.status =? s) task_statuses db.tasks in
    let attempts =
      counts_of (λ s (a : Attempt). attempt_rank a.status == attempt_rank s) attempt_statuses
        db.attempts in
    let workers =
      counts_of (λ s (w : Worker). worker_rank w.status == worker_rank s) worker_statuses
        db.workers in
    record {
      tasks_total = total by_status;
      tasks_by_status = by_status;
      tasks_by_priority = counts_of (λ p (t : Task). rank t.priority == rank p) priorities db.tasks;
      tasks_by_type = by_type db.tasks;
      attempts_total = total attempts;
      attempts_by_status = attempts;
      workers_total = total workers;
      workers_by_status = workers;
    }
