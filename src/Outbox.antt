-- ===== src/Outbox.antt =====
-- backend/app/services/outbox.py: the relay of the outbox to the broker. Whether the broker takes a
-- message is a parameter: the error text of its exception, or none.
pub mod Relay
use distributed_task_platfor.Prelude.{
  ℕ, ◌+◌, String, Bool, true, false, Option, none, some, List, [], ◌∷◌, ◌++◌, ◌==◌, truncate,
  select, take, length, order_by, if◌then◌else◌,
}
use distributed_task_platfor.Model.Status.{Priority}
use distributed_task_platfor.Model.Rows.{Message, OutboxStatus, OutboxEvent}
use distributed_task_platfor.Model.Db.{Db}

-- `PRIORITY_TO_RABBIT`, through `_priority_value`.
unfoldable pub priority_value : Message → ℕ
priority_value m = elim m.priority [
  | Priority.critical ↦ 9
  | Priority.high ↦ 6
  | Priority.normal ↦ 3
  | Priority.low ↦ 1
]

-- What the exchange is given.
pub record Published : Type 0 where
  pub body : Message
  pub priority : ℕ
  pub routing_key : String

abbrev pub is_pending : OutboxEvent → Bool
is_pending o = elim o.status [ OutboxStatus.pending ↦ true | OutboxStatus.sent ↦ false ]

unfoldable pub pending_events : ℕ → Db → List OutboxEvent
pending_events limit db = take limit (order_by (λ o. o.id) (select is_pending db.outbox))

abbrev pub replace_outbox : OutboxEvent → List OutboxEvent → List OutboxEvent
replace_outbox o [] = []
replace_outbox o (x ∷ xs) = (if x.id == o.id then o else x) ∷ replace_outbox o xs

-- The columns after the call of `exchange.publish`.
unfoldable pub settle : ℕ → Option String → OutboxEvent → OutboxEvent
settle now none o = record o {
  status = OutboxStatus.sent;
  processed_at = some now;
  last_error = none;
  attempts = o.attempts + 1;
}
settle now (some error) o = record o {
  attempts = o.attempts + 1;
  last_error = some (truncate 1000 error);
}

abbrev pub accepted : Option String → OutboxEvent → List Published
accepted none o =
    record { body = o.payload; priority = priority_value o.payload; routing_key = o.routing_key }
    ∷ []
accepted (some error) o = []

-- The broker's answers to one publication after another, by the id of the outbox row.
module _ (now : ℕ) (publish : OutboxEvent → Option String) where
  unfoldable pub publish_each : List OutboxEvent → Db → Db × List Published
  publish_each [] db = (db, [])
  publish_each (o ∷ os) db =
      let (db', sent) =
        publish_each os
          (record db { outbox = replace_outbox (settle now (publish o) o) db.outbox }) in
      (db', accepted (publish o) o ++ sent)

  unfoldable pub publish_pending_events : ℕ → Db → Db × List Published
  publish_pending_events limit db = publish_each (pending_events limit db) db
