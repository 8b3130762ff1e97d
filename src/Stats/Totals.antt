-- ===== src/Stats/Totals.antt =====
-- The totals of `build_stats` of backend/app/services/stats.py, against the rows.
use distributed_task_platfor.Prelude.{
  suc, ◌+◌, ◌≡◌, refl, String, Bool, List, [], ◌∷◌, ◌==◌, ◌=ₛ◌, count, length, arith, inl, inr,
  Bool-cases,
}
use distributed_task_platfor.Model.Status.{Status, Priority, ◌=?◌}
use distributed_task_platfor.Model.Rows.{Task, Attempt, AttemptStatus, Worker, WorkerStatus}
use distributed_task_platfor.Model.Db.{Db}
use distributed_task_platfor.Tasks.Listing.{rank}
use distributed_task_platfor.Batches.{task_statuses}
use distributed_task_platfor.Stats.{
  Counts, total, counts_of, priorities, attempt_statuses, worker_statuses, count_type, by_type,
  build_stats, attempt_rank, worker_rank,
}

counts-nil : {L R : Type 0} (is : L → R → Bool) (ls : List L) → total (counts_of is ls []) ≡ 0
counts-nil is [] = refl
counts-nil is (l ∷ ls) = omega (arith, counts-nil is ls)

counts-cons :
    {L R : Type 0} (is : L → R → Bool) (ls : List L) (x : R) (rows : List R)
    → total (counts_of is ls (x ∷ rows)) ≡ count (λ l. is l x) ls + total (counts_of is ls rows)
counts-cons is [] x rows = refl
counts-cons is (l ∷ ls) x rows = omega (arith, counts-cons is ls x rows)

-- Where each row has one label of the table, the counts add up to the number of rows.
counts-total :
    {L R : Type 0} (is : L → R → Bool) (ls : List L)
    → ((x : R) → count (λ l. is l x) ls ≡ 1)
    → (rows : List R) → total (counts_of is ls rows) ≡ length rows
counts-total is ls once [] = counts-nil is ls
counts-total is ls once (x ∷ rows) =
    omega (arith, counts-cons is ls x rows, once x, counts-total is ls once rows)

count_type-total : (t : String) (c : Counts String) → total (count_type t c) ≡ suc (total c)
count_type-total t [] = refl
count_type-total t ((u, n) ∷ c) = elim (Bool-cases (u =ₛ t)) [
  | inl e ↦ rw e (omega arith)
  | inr e ↦ rw e (omega (arith, count_type-total t c))
]

by_type-total : (ts : List Task) → total (by_type ts) ≡ length ts
by_type-total [] = refl
by_type-total (t ∷ ts) = omega (arith, count_type-total t.task_type (by_type ts), by_type-total ts)

once_status : (s : Status) → count (λ l. s =? l) task_statuses ≡ 1
once_status Status.created = refl
once_status _ = refl

once_priority : (p : Priority) → count (λ l. rank p == rank l) priorities ≡ 1
once_priority Priority.critical = refl
once_priority _ = refl

once_attempt :
    (a : AttemptStatus) → count (λ l. attempt_rank a == attempt_rank l) attempt_statuses ≡ 1
once_attempt AttemptStatus.running = refl
once_attempt _ = refl

once_worker : (w : WorkerStatus) → count (λ l. worker_rank w == worker_rank l) worker_statuses ≡ 1
once_worker WorkerStatus.alive = refl
once_worker _ = refl

-- For every database, the totals that `build_stats` reports are the numbers of the rows of tasks,
-- attempts and workers, and the counts by status, by priority and by type each add up to the number
-- of tasks.
pub stats_total :
    (db : Db)
    → ((build_stats db).tasks_total ≡ length db.tasks)
      × (total (build_stats db).tasks_by_priority ≡ length db.tasks)
      × (total (build_stats db).tasks_by_type ≡ length db.tasks)
      × ((build_stats db).attempts_total ≡ length db.attempts)
      × ((build_stats db).workers_total ≡ length db.workers)
unfolding build_stats
stats_total db = (
  counts-total (λ l (t : Task). t.status =? l) task_statuses (λ t. once_status t.status) db.tasks,
  counts-total (λ l (t : Task). rank t.priority == rank l) priorities
      (λ t. once_priority t.priority) db.tasks,
  by_type-total db.tasks,
  counts-total (λ l (a : Attempt). attempt_rank a.status == attempt_rank l) attempt_statuses
      (λ a. once_attempt a.status) db.attempts,
  counts-total (λ l (w : Worker). worker_rank w.status == worker_rank l) worker_statuses
      (λ w. once_worker w.status) db.workers,
)
