-- ===== src/Worker/Messages.antt =====
-- backend/app/worker/main.py and broker/consumer.py: the handling of a message from its body to the
-- answer that the broker gets. `json.loads` and `int` are parameters, as are the texts of errors.
use distributed_task_platfor.Prelude.{ℕ, String, Bool, Option, none, some, List, if◌then◌else◌}
use distributed_task_platfor.Model.Rows.{Task}
use distributed_task_platfor.Model.Settings.{Settings}
use distributed_task_platfor.Model.Db.{Db, get_task}
use distributed_task_platfor.Model.Result.{Result, ok, err, not_found}
use distributed_task_platfor.Executors.{Handler, get_handler}
use distributed_task_platfor.Worker.{Execution, timed_out, unknown_task_type, claim, finish}

-- What `json.loads` gives: an object by its keys, or a value of another kind.
pub data Json : Type 0 where
  object : (String → Option String) → Json
  other : Json

-- `ack`, or `nack` with `requeue=False`.
pub data Answer : Type 0 where
  acked nacked : Answer

-- One delivery: the process of the worker, its handlers, the times of the two transactions, whether
-- `wait_for` runs out, and what the transactions of others do to the database meanwhile, the
-- renewals of the lease among them.
pub record Delivery : Type 0 where
  pub worker : String
  pub handlers : List Handler
  pub claimed_at : ℕ
  pub ended_at : ℕ
  pub overran : Bool
  pub meanwhile : Db → Db

module _ (loads : String → Option Json) (int : String → Option ℕ) (unknown late : String) where
  abbrev pub number_of : Option String → Option ℕ
  number_of none = none
  number_of (some v) = int v

  abbrev pub decode_payload : Option Json → Option (String → Option String)
  decode_payload none = none
  decode_payload (some other) = none
  decode_payload (some (object get)) = some get

  -- `int(body.get("task_id"))`, where `none` is an exception.
  abbrev pub id_of : Option (String → Option String) → Option ℕ
  id_of none = none
  id_of (some get) = number_of (get "task_id")

  unfoldable pub task_id_of : String → Option ℕ
  task_id_of body = id_of (decode_payload (loads body))

  -- `_dispatch` under `wait_for`.
  abbrev pub dispatch : Bool → String → Option Handler → Execution
  dispatch overran payload none = unknown_task_type unknown
  dispatch overran payload (some h) = if overran then timed_out late else h.execute payload

  -- How the execution of the task ends.
  abbrev pub execute : Delivery → Task → Execution
  execute m t = dispatch m.overran t.payload (get_handler t.task_type m.handlers)

  -- An exception of the second transaction leaves the database as the others left it.
  abbrev pub settle : Db → Result Db → Db × Answer
  settle db (ok db') = (db', acked)
  settle db (err e) = (db, nacked)

  module _ (s : Settings) (depth : ℕ) (m : Delivery) where
    abbrev pub end_with : ℕ → Db → Option Task → Result Db
    end_with id db none = err not_found
    end_with id db (some held) =
        finish s depth m.ended_at m.worker id held.attempts held (execute m held) db

    -- The object that the session holds is the row that the first transaction committed.
    abbrev pub work_on : ℕ → Db → Db × Answer
    work_on id db = let after = m.meanwhile db in settle after (end_with id after (get_task id db))

    abbrev pub on_claim : ℕ → Db → Result (Option Db) → Db × Answer
    on_claim id db (err e) = (db, nacked)
    on_claim id db (ok none) = (db, acked)
    on_claim id db (ok (some db')) = work_on id db'

    abbrev pub on_id : Option ℕ → Db → Db × Answer
    on_id none db = (db, nacked)
    on_id (some id) db = on_claim id db (claim s depth m.claimed_at m.worker id db)

    unfoldable pub handle_message : String → Db → Db × Answer
    handle_message body db = on_id (task_id_of body) db
