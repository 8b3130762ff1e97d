-- ===== src/StatusChange/Frame.antt =====
-- What a change of status leaves alone, and what it writes.
use distributed_task_platfor.Prelude.{ℕ, ◌≡◌, List, [], ◌∷◌, arith, Bool-cases, inl, inr, ◌&&◌}
use distributed_task_platfor.Model.Status.{Status, EventType}
use distributed_task_platfor.Model.Rows.{Task, Details, WebhookSubscription}
use distributed_task_platfor.Model.Db.{Db, put_task}
use distributed_task_platfor.Webhooks.Enqueue.{matches, enqueue_delivery, enqueue_each, enqueue_for}
use distributed_task_platfor.StatusChange.{assign_status, record_event, change}

-- Two databases that differ in their deliveries at most.
pub record SameButDeliveries (a b : Db) : Type 0 where
  pub tasks : a.tasks ≡ b.tasks
  pub attempts : a.attempts ≡ b.attempts
  pub events : a.events ≡ b.events
  pub outbox : a.outbox ≡ b.outbox
  pub dependencies : a.dependencies ≡ b.dependencies
  pub subscriptions : a.subscriptions ≡ b.subscriptions
  pub workers : a.workers ≡ b.workers
  pub audit : a.audit ≡ b.audit
  pub next_task_id : a.next_task_id ≡ b.next_task_id
  pub next_outbox_id : a.next_outbox_id ≡ b.next_outbox_id

enqueue_each-frame :
    (now : ℕ) (e : EventType) (t : Task) (subs : List WebhookSubscription) (db : Db)
    → SameButDeliveries (enqueue_each now e t subs db) db
unfolding enqueue_each enqueue_delivery
enqueue_each-frame now e t [] db = ground arith
enqueue_each-frame now e t (sub ∷ subs) db = elim (Bool-cases (sub.is_active && matches sub e)) [
  | inl h ↦ rw h (ground (arith, enqueue_each-frame now e t subs (enqueue_delivery now e t sub db)))
  | inr h ↦ rw h (enqueue_each-frame now e t subs db)
]

pub enqueue_for-frame :
    (now : ℕ) (e : EventType) (t : Task) (db : Db) → SameButDeliveries (enqueue_for now e t db) db
unfolding enqueue_for
enqueue_for-frame now e t db = enqueue_each-frame now e t db.subscriptions db

-- A change writes the task's row, adds its event, and adds deliveries.
pub change-frame :
    (now : ℕ) (t : Task) (new : Status) (e : EventType) (d : Details) (db : Db)
    → SameButDeliveries
        (change now t new e d db)
        (put_task (assign_status now t new) (record_event t e new d db))
unfolding change
change-frame now t new e d db = enqueue_for-frame now e (assign_status now t new) _
