-- ===== src/Worker/Rounds.antt =====
-- backend/app/worker/main.py: one round of each loop that a worker runs beside its messages. The
-- loops repeat them with a pause for as long as the process lives.
use distributed_task_platfor.Prelude.{ℕ, ◌*◌, none, min}
use distributed_task_platfor.Model.Settings.{Settings}
use distributed_task_platfor.Model.Db.{Db}
use distributed_task_platfor.Model.Result.{Result, ok, err}
use distributed_task_platfor.Scheduler.{
  requeue_due_tasks, recover_stuck_tasks, requeue_orphaned_queued_tasks, requeue_dlq_tasks,
  purge_old_data,
}

-- The times that the four passes read.
pub record Times : Type 0 where
  pub requeued_at : ℕ
  pub recovered_at : ℕ
  pub orphaned_at : ℕ
  pub dlq_at : ℕ

-- The committed pass, and then the rest of the round; an exception ends the round.
abbrev pub and_then : Db → Result Db → (Db → Db) → Db
and_then db (ok db') rest = rest db'
and_then db (err e) rest = db

module _ (s : Settings) where
  abbrev pub last_pass : ℕ → Times → Db → Db
  last_pass depth w db = and_then db (requeue_dlq_tasks s depth w.dlq_at 200 db) (λ d. d)

  abbrev pub republish_pass : ℕ → Times → Db → Db
  republish_pass depth w db =
      last_pass depth w (requeue_orphaned_queued_tasks s w.orphaned_at 200 db).0

  abbrev pub recover_pass : ℕ → Times → Db → Db
  recover_pass depth w db =
      and_then db (recover_stuck_tasks s depth w.recovered_at 50 db) (republish_pass depth w)

  -- A round of `run_coordinator`: each pass commits by itself.
  unfoldable pub coordinate : ℕ → Times → Db → Db
  coordinate depth w db =
      and_then db (requeue_due_tasks s depth w.requeued_at 200 db) (recover_pass depth w)

  -- A round of `run_retention`.
  unfoldable pub retain : ℕ → Db → Db
  retain now db = (purge_old_data s now none db).0

-- The pause before the next connection to the broker, from the one before: it starts at a second.
unfoldable pub next_backoff : ℕ → ℕ
next_backoff backoff = min (backoff * 2) 10_000_000
