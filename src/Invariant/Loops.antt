-- ===== src/Invariant/Loops.antt =====
-- The loops of backend/app/worker/main.py are sequences of steps: the handling of a message, a round
-- of the coordinator and one of the retention.
use distributed_task_platfor.Prelude.{ℕ, String, ◌≡◌, refl, Option, none, some}
use distributed_task_platfor.Model.Rows.{Task}
use distributed_task_platfor.Model.Settings.{Settings}
use distributed_task_platfor.Model.Db.{Db, get_task}
use distributed_task_platfor.Model.Result.{Result, ok, err}
use distributed_task_platfor.Scheduler.{requeue_due_tasks, recover_stuck_tasks, requeue_dlq_tasks}
use distributed_task_platfor.Worker.{claim}
use distributed_task_platfor.Worker.Messages.{
  Json, Delivery, task_id_of, execute, end_with, settle, on_claim, on_id, handle_message,
}
use distributed_task_platfor.Worker.Rounds.{
  Times, and_then, last_pass, republish_pass, recover_pass, coordinate, retain,
}
use distributed_task_platfor.Invariant.Reach.{
  Reach, next, claims, finishes, requeues, recovers, republishes, revives, purges,
}

module _ (s : Settings) (start : Db) where
  abbrev Reached : Db → Type 0
  Reached db = Reach s start db

  and_then-Reach :
      (db : Db) (r : Result Db) (rest : Db → Db)
      → Reached db
      → ((b : Db) → r ≡ ok b → Reached (rest b))
      → Reached (and_then db r rest)
  and_then-Reach db (ok b) rest h k = k b refl
  and_then-Reach db (err e) rest h k = h

  last_pass-Reach :
      (depth : ℕ) (w : Times) (db : Db) → Reached db → Reached (last_pass s depth w db)
  last_pass-Reach depth w db h =
      and_then-Reach db (requeue_dlq_tasks s depth w.dlq_at 200 db) (λ d. d) h
        (λ b e. next h (revives depth w.dlq_at 200 e))

  recover_pass-Reach :
      (depth : ℕ) (w : Times) (db : Db) → Reached db → Reached (recover_pass s depth w db)
  recover_pass-Reach depth w db h =
      and_then-Reach db (recover_stuck_tasks s depth w.recovered_at 50 db)
        (republish_pass s depth w) h
        (λ b e.
          last_pass-Reach depth w _ (
            next (next h (recovers depth w.recovered_at 50 e))
              (republishes w.orphaned_at 200 refl)))

  pub coordinate-Reach :
      (depth : ℕ) (w : Times) (db : Db) → Reached db → Reached (coordinate s depth w db)
  unfolding coordinate
  coordinate-Reach depth w db h =
      and_then-Reach db (requeue_due_tasks s depth w.requeued_at 200 db) (recover_pass s depth w) h
        (λ b e. recover_pass-Reach depth w b (next h (requeues depth w.requeued_at 200 e)))

  pub retain-Reach : (now : ℕ) (db : Db) → Reached db → Reached (retain s now db)
  unfolding retain
  retain-Reach now db h = next h (purges now none refl)

  module _ (loads : String → Option Json) (int : String → Option ℕ) (unknown late : String)
      (depth : ℕ) (m : Delivery) (others : (d : Db) → Reached d → Reached (m.meanwhile d)) where
    settle-Reach :
        (db : Db) (r : Result Db)
        → Reached db
        → ((b : Db) → r ≡ ok b → Reached b)
        → Reached (settle loads int unknown late db r).0
    settle-Reach db (ok b) h k = k b refl
    settle-Reach db (err e) h k = h

    end_with-Reach :
        (id : ℕ) (db d : Db) (o : Option Task)
        → Reached db
        → end_with loads int unknown late s depth m id db o ≡ ok d
        → Reached d
    end_with-Reach id db d none h e = cc e
    end_with-Reach id db d (some held) h e = next h (
        finishes depth m.ended_at m.worker id held.attempts held
          (execute loads int unknown late m held) e)

    on_claim-Reach :
        (id : ℕ) (db : Db) (r : Result (Option Db))
        → Reached db
        → claim s depth m.claimed_at m.worker id db ≡ r
        → Reached (on_claim loads int unknown late s depth m id db r).0
    on_claim-Reach id db (err e) h c = h
    on_claim-Reach id db (ok none) h c = h
    on_claim-Reach id db (ok (some b)) h c =
        let after = others b (next h (claims depth m.claimed_at m.worker id c)) in
        settle-Reach (m.meanwhile b)
          (end_with loads int unknown late s depth m id (m.meanwhile b) (get_task id b)) after
          (λ d e. end_with-Reach id (m.meanwhile b) d (get_task id b) after e)

    on_id-Reach :
        (o : Option ℕ) (db : Db)
        → Reached db
        → Reached (on_id loads int unknown late s depth m o db).0
    on_id-Reach none db h = h
    on_id-Reach (some id) db h = on_claim-Reach id db _ h refl

    pub handle_message-Reach :
        (body : String) (db : Db)
        → Reached db
        → Reached (handle_message loads int unknown late s depth m body db).0
    unfolding handle_message
    handle_message-Reach body db h = on_id-Reach (task_id_of loads int unknown late body) db h
