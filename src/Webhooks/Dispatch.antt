-- ===== src/Webhooks/Dispatch.antt =====
-- backend/app/services/webhooks.py: the dispatcher of the deliveries that are due. The HTTP request
-- of `send_now` is a parameter: the error text of its outcome, or none for a success.
use distributed_task_platfor.Prelude.{
  ℕ, ◌+◌, ◌-◌, ◌*◌, ◌^◌, String, Bool, true, false, ◌&&◌, Option, none, some, List, [], ◌∷◌, ◌==◌,
  leb, truncate, select, take, length, order_by, if◌then◌else◌,
}
use distributed_task_platfor.Model.Rows.{
  DeliveryStatus, WebhookSubscription, WebhookDelivery, Notice,
}
use distributed_task_platfor.Model.Settings.{Settings}
use distributed_task_platfor.Model.Db.{Db}

-- `_retry_delay`; it is called after `attempts` was raised, so the exponent is not negative.
unfoldable pub retry_delay : Settings → ℕ → ℕ
retry_delay s attempts_so_far = s.webhook_retry_backoff * 2 ^ (attempts_so_far - 1)

abbrev pub is_pending : WebhookDelivery → Bool
is_pending d = elim d.status [ DeliveryStatus.pending ↦ true | _ ↦ false ]

abbrev pub is_due : ℕ → WebhookDelivery → Bool
is_due now d = is_pending d && leb d.next_retry_at now

unfoldable pub due : ℕ → ℕ → Db → List WebhookDelivery
due now limit db = take limit (order_by (λ d. d.id) (select (is_due now) db.deliveries))

-- `session.get(WebhookSubscription, id)`.
abbrev pub find_subscription : ℕ → List WebhookSubscription → Option WebhookSubscription
find_subscription i [] = none
find_subscription i (s ∷ ss) = if s.id == i then some s else find_subscription i ss

abbrev pub replace_delivery : WebhookDelivery → List WebhookDelivery → List WebhookDelivery
replace_delivery d [] = []
replace_delivery d (x ∷ xs) = (if x.id == d.id then d else x) ∷ replace_delivery d xs

abbrev pub lost_subscription : String
lost_subscription = "Підписку видалено або деактивовано"

-- The columns after the request.
unfoldable pub settle : Settings → ℕ → Option String → WebhookDelivery → WebhookDelivery
settle s now none d = record d { status = DeliveryStatus.sent; last_error = none }
settle s now (some error) d =
    let n = d.attempts + 1 in
    if leb s.webhook_max_attempts n
    then record d {
      attempts = n;
      last_error = some (truncate 1000 error);
      status = DeliveryStatus.failed;
    }
    else record d {
      attempts = n;
      last_error = some (truncate 1000 error);
      next_retry_at = now + retry_delay s n;
    }

module _ (s : Settings) (now : ℕ) (send : WebhookSubscription → Notice → Option String) where
  -- The body of the loop: a subscription that is gone or not active fails its delivery.
  unfoldable pub dispatch : Option WebhookSubscription → WebhookDelivery → WebhookDelivery
  dispatch none d = record d { status = DeliveryStatus.failed; last_error = some lost_subscription }
  dispatch (some sub) d =
      if sub.is_active
      then settle s now (send sub d.payload) d
      else record d { status = DeliveryStatus.failed; last_error = some lost_subscription }

  unfoldable pub dispatch_each : List WebhookDelivery → Db → Db
  dispatch_each [] db = db
  dispatch_each (d ∷ ds) db = dispatch_each ds (record db {
    deliveries =
        replace_delivery (dispatch (find_subscription d.subscription_id db.subscriptions) d)
          db.deliveries;
  })

  unfoldable pub dispatch_due : ℕ → Db → Db × ℕ
  dispatch_due limit db = let ds = due now limit db in (dispatch_each ds db, length ds)
