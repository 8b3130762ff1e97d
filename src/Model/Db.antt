-- ===== src/Model/Db.antt =====
-- The database as one record of tables, and the queries and writes of single rows that the services
-- share. A table is the list of its rows in the order of insertion.
pub mod Rows
pub mod Distinct
use distributed_task_platfor.Prelude.{
  ℕ, suc, String, Option, none, some, List, [], ◌∷◌, ◌++◌, ◌==◌, if◌then◌else◌,
}
use distributed_task_platfor.Model.Rows.{
  Task, Attempt, TaskEvent, Message, OutboxEvent, pending, TaskDependency, WebhookSubscription,
  WebhookDelivery, Worker, AuditLog,
}

pub record Db : Type 0 where
  pub tasks : List Task
  pub attempts : List Attempt
  pub events : List TaskEvent
  pub outbox : List OutboxEvent
  pub dependencies : List TaskDependency
  pub subscriptions : List WebhookSubscription
  pub deliveries : List WebhookDelivery
  pub workers : List Worker
  pub audit : List AuditLog
  -- the sequences that give out primary keys
  pub next_task_id : ℕ
  pub next_outbox_id : ℕ
  pub next_delivery_id : ℕ
  pub next_audit_id : ℕ

-- `select(Task).where(Task.id == i)`.
abbrev pub find : ℕ → List Task → Option Task
find i [] = none
find i (t ∷ ts) = if t.id == i then some t else find i ts

unfoldable pub get_task : ℕ → Db → Option Task
get_task i db = find i db.tasks

-- The flush of a changed object: its row is written, the others stay.
abbrev pub replace : Task → List Task → List Task
replace t [] = []
replace t (u ∷ ts) = (if u.id == t.id then t else u) ∷ replace t ts

unfoldable pub put_task : Task → Db → Db
put_task t db = record db { tasks = replace t db.tasks }

-- `session.add(OutboxEvent(routing_key=…, payload=…))`; the other columns have their defaults.
unfoldable pub add_outbox : String → Message → Db → Db
add_outbox key m db = record db {
  outbox =
      db.outbox
      ++ record {
        id = db.next_outbox_id;
        routing_key = key;
        payload = m;
        status = pending;
        attempts = 0;
        processed_at = none;
        last_error = none;
      }
        ∷ [];
  next_outbox_id = suc db.next_outbox_id;
}
