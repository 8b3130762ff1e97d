-- ===== src/Batches/Progress.antt =====
-- The progress that backend/app/services/batches.py reports.
use distributed_task_platfor.Prelude.{◌∙◌, ℕ, ◌+◌, ◌≡◌, refl, ◌&&◌, List, [], ◌∷◌, count, arith}
use distributed_task_platfor.Model.Status.{Status, ◌=?◌}
use distributed_task_platfor.Model.Rows.{Task}
use distributed_task_platfor.Model.Db.{Db}
use distributed_task_platfor.Batches.{in_batch, counted, task_statuses, sum_counts, get_progress}

-- The counts by status over some rows.
sum_over : ℕ → List Status → List Task → ℕ
sum_over b [] ts = 0
sum_over b (s ∷ ss) ts = count (λ t. in_batch b t && (t.status =? s)) ts + sum_over b ss ts

-- Each row of the batch has one of the statuses that are counted.
sum_over-count :
    (b : ℕ) (ts : List Task) → sum_over b task_statuses ts ≡ count (λ t. in_batch b t) ts
unfolding sum_over
sum_over-count b [] = refl
sum_over-count b (t ∷ ts) = ground (arith, sum_over-count b ts)

sum_counts-over : (b : ℕ) (ss : List Status) (db : Db) → sum_counts b ss db ≡ sum_over b ss db.tasks
unfolding counted sum_over
sum_counts-over b [] db = refl
sum_counts-over b (s ∷ ss) db = omega (arith, sum_counts-over b ss db)

-- The progress of a batch counts each of its tasks once: the total is the number of tasks in the
-- batch, and those that are queued, running, pending or completed make up the total.
pub progress_partitions :
    (b : ℕ) (db : Db)
    → ((get_progress b db).total ≡ count (in_batch b) db.tasks)
      × ((get_progress b db).queued
            + (get_progress b db).running
            + (get_progress b db).pending
            + (get_progress b db).completed
          ≡ (get_progress b db).total)
unfolding get_progress
progress_partitions b db =
    (sum_counts-over b task_statuses db ∙ sum_over-count b db.tasks, omega arith)
