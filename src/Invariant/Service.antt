-- ===== src/Invariant/Service.antt =====
-- The life of a worker of backend/app/worker/main.py: messages and the rounds of its loops, in any
-- order, with the transactions of other processes between them and during the handlers.
use mathlib.Core.Path.{subst}
use distributed_task_platfor.Prelude.{ℕ, String, ◌≡◌, refl, sym, ◌∙◌, true, Option, none, some}
use distributed_task_platfor.Model.Rows.{Task}
use distributed_task_platfor.Model.Settings.{Settings}
use distributed_task_platfor.Model.Db.{Db, get_task}
use distributed_task_platfor.Worker.Messages.{Json, Delivery, handle_message}
use distributed_task_platfor.Worker.Rounds.{Times, coordinate, retain}
use distributed_task_platfor.Invariant.{legal, status_after, status_of, IsSettled}
use distributed_task_platfor.Invariant.Reach.{
  Reach, here, next, Step, empty_db, history_replays, rows-IsSettled,
}
use distributed_task_platfor.Invariant.Loops.{handle_message-Reach, coordinate-Reach, retain-Reach}

-- What can happen to the database, in any order. What the transactions of others do while a handler
-- runs is again a sequence of steps, from whatever database they find.
pub data Life (s : Settings) (loads : String → Option Json) (int : String → Option ℕ)
    (unknown late : String) (a : Db) : Db → Type 0 where
  started : Life s loads int unknown late a a
  handled :
      {b c : Db} (depth : ℕ) (m : Delivery) (body : String)
      → Life s loads int unknown late a b
      → ((d : Db) → Reach s d (m.meanwhile d))
      → c ≡ (handle_message loads int unknown late s depth m body b).0
      → Life s loads int unknown late a c
  coordinated :
      {b c : Db} (depth : ℕ) (w : Times)
      → Life s loads int unknown late a b
      → c ≡ coordinate s depth w b
      → Life s loads int unknown late a c
  retained :
      {b c : Db} (now : ℕ)
      → Life s loads int unknown late a b
      → c ≡ retain s now b
      → Life s loads int unknown late a c
  stepped :
      {b c : Db}
      → Life s loads int unknown late a b
      → Step s b c
      → Life s loads int unknown late a c

chained : (s : Settings) (a b : Db) {c : Db} → Reach s a b → Reach s b c → Reach s a c
chained s a b r here = r
chained s a b r (next q step) = next (chained s a b r q) step

module _ (s : Settings) (loads : String → Option Json) (int : String → Option ℕ)
    (unknown late : String) where
  Life-Reach : {a b : Db} → Life s loads int unknown late a b → Reach s a b
  Life-Reach started = here
  Life-Reach {a} (handled {b} depth m body life others e) = subst (Reach s a) (sym e) (
      handle_message-Reach s a loads int unknown late depth m (λ d r. chained s a d r (others d))
        body b (Life-Reach life))
  Life-Reach {a} (coordinated {b} depth w life e) =
      subst (Reach s a) (sym e) (coordinate-Reach s a depth w b (Life-Reach life))
  Life-Reach {a} (retained {b} now life e) =
      subst (Reach s a) (sym e) (retain-Reach s a now b (Life-Reach life))
  Life-Reach (stepped life step) = next (Life-Reach life) step

  -- Whatever messages a worker handles, those that cannot be read and those whose transactions raise
  -- included, with whatever handlers, outcomes and timeouts, whatever rounds of the coordinator and
  -- of the retention run between them, those that an exception ends included, and whatever
  -- transactions of other processes come before, after and during the handlers: from the empty
  -- database on, the log of events of every task is a permitted walk that ends in the status of its
  -- row, and every row of a task is settled.
  pub worker_consistent :
      (db : Db) (i : ℕ) (t : Task)
      → Life s loads int unknown late empty_db db
      → get_task i db ≡ some t
      → (legal i none db.events ≡ true)
        × (status_after i none db.events ≡ some t.status)
        × IsSettled s t
  worker_consistent db i t life g =
      let r = Life-Reach life in
      let (walk, ends) = history_replays s db i r in
      let p : status_of (get_task i db) ≡ some t.status = rw g refl in
      (walk, ends ∙ p, rows-IsSettled s db i t r g)
