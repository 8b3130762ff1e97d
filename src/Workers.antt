-- ===== src/Workers.antt =====
-- backend/app/services/workers.py: the register of workers and their heartbeat.
pub mod Heartbeat
use distributed_task_platfor.Prelude.{
  ℕ, String, Option, none, some, List, [], ◌∷◌, ◌++◌, ◌=ₛ◌, count, if◌then◌else◌,
}
use distributed_task_platfor.Model.Rows.{WorkerStatus, Worker}
use distributed_task_platfor.Model.Db.{Db}
use distributed_task_platfor.Scheduler.{is_stale, mark_dead}

abbrev pub find_worker : String → List Worker → Option Worker
find_worker w [] = none
find_worker w (x ∷ xs) = if x.worker_id =ₛ w then some x else find_worker w xs

-- The flush of a changed worker.
abbrev pub replace_worker : Worker → List Worker → List Worker
replace_worker w [] = []
replace_worker w (x ∷ xs) = (if x.worker_id =ₛ w.worker_id then w else x) ∷ replace_worker w xs

abbrev pub fresh_worker : ℕ → String → String → ℕ → Worker
fresh_worker now worker_id hostname pid = record {
  worker_id = worker_id;
  hostname = hostname;
  pid = pid;
  status = WorkerStatus.alive;
  started_at = now;
  last_heartbeat_at = now;
}

-- Both branches assign every column, so the row is the same; the first adds it.
abbrev pub register : Option Worker → Worker → List Worker → List Worker
register none w ws = ws ++ w ∷ []
register (some old) w ws = replace_worker w ws

unfoldable pub register_worker : ℕ → String → String → ℕ → Db → Db
register_worker now worker_id hostname pid db = record db {
  workers =
      register (find_worker worker_id db.workers) (fresh_worker now worker_id hostname pid)
        db.workers;
}

-- `None` for a worker that is not registered.
unfoldable pub heartbeat : ℕ → String → Db → Option Db
heartbeat now worker_id db = elim (find_worker worker_id db.workers) [
  | none ↦ none
  | some w ↦ some (record db {
    workers =
        replace_worker (record w { last_heartbeat_at = now; status = WorkerStatus.alive })
          db.workers;
  })
]

unfoldable pub mark_dead_workers : ℕ → Db → Db × ℕ
mark_dead_workers stale_before db = (
  record db { workers = mark_dead stale_before db.workers },
  count (is_stale stale_before) db.workers,
)

-- One round of `run_heartbeat` in backend/app/worker/main.py.
unfoldable pub beat : ℕ → String → String → ℕ → Db → Db
beat now worker_id hostname pid db = elim (heartbeat now worker_id db) [
  | none ↦ register_worker now worker_id hostname pid db
  | some db' ↦ db'
]
