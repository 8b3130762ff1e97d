-- ===== src/Worker.antt =====
-- backend/app/worker/main.py: the handling of one message, as the two transactions around the
-- execution of the task. The handler's outcome is a parameter.
pub mod Lease
pub mod Messages
pub mod Redelivery
pub mod Rounds
use distributed_task_platfor.Prelude.{
  ℕ, String, Bool, true, false, Option, none, some, List, [], ◌∷◌, if◌then◌else◌,
}
use distributed_task_platfor.Model.Rows.{Task}
use distributed_task_platfor.Model.Settings.{Settings}
use distributed_task_platfor.Model.Db.{Db, get_task}
use distributed_task_platfor.Model.Result.{Result, ok, err, ◌>>=◌}
use distributed_task_platfor.Attempts.{
  try_acquire_lease, start_attempt, record_success, record_failure,
}

-- How `_dispatch` under `wait_for` ends: a result, a timeout, an unknown type, another exception.
pub data Execution : Type 0 where
  returned : String → Execution
  timed_out : String → Execution
  unknown_task_type : String → Execution
  raised : String → Execution

module _ (s : Settings) (depth now : ℕ) (worker : String) where
  abbrev pub start_task : Option Task → Db → Result (Option Db)
  start_task none db = ok none
  start_task (some t) db = do db' ← start_attempt s depth now worker t db; ok (some db')

  -- The first transaction of `handle_message`. `none` is a message that is acknowledged and
  -- skipped: the session is closed with no commit, so the database stays as it was.
  unfoldable pub claim : ℕ → Db → Result (Option Db)
  claim id db =
      let (acquired, db') = try_acquire_lease now id worker s.task_lease db in
      if acquired then start_task (get_task id db') db' else ok none

  -- The second transaction, for the attempt of that number, with the object that the session holds.
  unfoldable pub finish : ℕ → ℕ → Task → Execution → Db → Result Db
  finish id n held (returned result) db = record_success s depth now id n held result db
  finish id n held (timed_out error) db = record_failure s depth now id n held error true db
  finish id n held (unknown_task_type error) db =
      record_failure s depth now id n held error false db
  finish id n held (raised error) db = record_failure s depth now id n held error true db
