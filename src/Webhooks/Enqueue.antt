-- ===== src/Webhooks/Enqueue.antt =====
-- backend/app/services/webhooks.py: the deliveries that a change of status puts into the database.
use distributed_task_platfor.Prelude.{
  ℕ, suc, Bool, none, List, [], ◌∷◌, ◌++◌, ◌&&◌, ◌||◌, member_text, if◌then◌else◌,
}
use distributed_task_platfor.Model.Status.{EventType, event_name}
use distributed_task_platfor.Model.Rows.{Task, TaskSnapshot, WebhookSubscription, WebhookDelivery}
use distributed_task_platfor.Model.Rows.{DeliveryStatus}
use distributed_task_platfor.Model.Db.{Db}

-- `_matches`; an empty list of events has no member, so it matches nothing.
unfoldable pub matches : WebhookSubscription → EventType → Bool
matches sub e = member_text "*" sub.events || member_text (event_name e) sub.events

abbrev pub task_payload : Task → TaskSnapshot
task_payload t = record {
  id = t.id;
  task_type = t.task_type;
  status = t.status;
  priority = t.priority;
  attempts = t.attempts;
}

-- One pass of the loop: the delivery is added and gets its payload once it has an id.
abbrev pub new_delivery : ℕ → EventType → Task → WebhookSubscription → Db → WebhookDelivery
new_delivery now e t sub db = record {
  id = db.next_delivery_id;
  subscription_id = sub.id;
  event_type = e;
  task_id = t.id;
  payload = record {
    event = e;
    subscription_id = sub.id;
    delivery_id = db.next_delivery_id;
    timestamp = now;
    task = task_payload t;
  };
  status = DeliveryStatus.pending;
  attempts = 0;
  next_retry_at = now;
  last_error = none;
}

unfoldable pub enqueue_delivery : ℕ → EventType → Task → WebhookSubscription → Db → Db
enqueue_delivery now e t sub db = record db {
  deliveries = db.deliveries ++ new_delivery now e t sub db ∷ [];
  next_delivery_id = suc db.next_delivery_id;
}

unfoldable pub enqueue_each : ℕ → EventType → Task → List WebhookSubscription → Db → Db
enqueue_each now e t [] db = db
enqueue_each now e t (sub ∷ subs) db =
    enqueue_each now e t subs
      (if sub.is_active && matches sub e then enqueue_delivery now e t sub db else db)

unfoldable pub enqueue_for : ℕ → EventType → Task → Db → Db
unfolding enqueue_each
enqueue_for now e t db = enqueue_each now e t db.subscriptions db
