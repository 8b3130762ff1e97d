-- ===== src/Scheduler/Orphans.antt =====
-- The pass over orphaned tasks of backend/app/worker/services/scheduler.py, run again.
use distributed_task_platfor.Prelude.{
  ℕ, ◌+◌, ◌≡◌, refl, List, [], ◌∷◌, length, length-append, arith,
}
use distributed_task_platfor.Model.Rows.{Task}
use distributed_task_platfor.Model.Settings.{Settings}
use distributed_task_platfor.Model.Db.{Db, add_outbox}
use distributed_task_platfor.Tasks.{republish}
use distributed_task_platfor.Scheduler.{republish_all, orphaned, requeue_orphaned_queued_tasks}

republish-tasks :
    (s : Settings) (ts : List Task) (db : Db) → (republish_all s ts db).tasks ≡ db.tasks
unfolding republish_all republish add_outbox
republish-tasks s [] db = refl
republish-tasks s (t ∷ ts) db = republish-tasks s ts (republish s t db)

republish-outbox :
    (s : Settings) (ts : List Task) (db : Db)
    → length (republish_all s ts db).outbox ≡ length db.outbox + length ts
unfolding republish_all republish add_outbox
republish-outbox s [] db = omega arith
republish-outbox s (t ∷ ts) db =
    let one : length (republish s t db).outbox ≡ length db.outbox + 1 =
      unfold republish add_outbox in length-append db.outbox _ in
    omega (arith, one, republish-outbox s ts (republish s t db))

-- A pass over the orphaned tasks adds one message to the outbox for each of them and changes no row of
-- a task, so that the next pass finds the same tasks again, however many messages for them wait.
pub orphans_again :
    (s : Settings) (now limit : ℕ) (db : Db)
    → ((requeue_orphaned_queued_tasks s now limit db).0.tasks ≡ db.tasks)
      × (length (requeue_orphaned_queued_tasks s now limit db).0.outbox
          ≡ length db.outbox + length (orphaned s now limit db))
      × (orphaned s now limit (requeue_orphaned_queued_tasks s now limit db).0
          ≡ orphaned s now limit db)
unfolding requeue_orphaned_queued_tasks orphaned
orphans_again s now limit db =
    let stuck = orphaned s now limit db in
    let same = republish-tasks s stuck db in (same, republish-outbox s stuck db, rw same refl)
