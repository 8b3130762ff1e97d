-- ===== src/Api/Webhooks.antt =====
-- backend/app/api/routes/webhooks.py: the subscriptions and the list of deliveries.
pub mod Deletion
use mathlib.Core.List.{reverse}
use distributed_task_platfor.Prelude.{
  ℕ, suc, String, Bool, true, false, not, ◌||◌, Option, none, some, List, [], ◌∷◌, ◌++◌, ◌==◌, ◌=ₛ◌,
  select, count, order_by, member_text, if◌then◌else◌,
}
use distributed_task_platfor.Model.Status.{EventType, event_name, event_types}
use distributed_task_platfor.Model.Rows.{WebhookSubscription, WebhookDelivery, DeliveryStatus}
use distributed_task_platfor.Model.Settings.{Settings}
use distributed_task_platfor.Model.Db.{Db}
use distributed_task_platfor.Model.Query.{filter_if, filter_if_text, passes, page}
use distributed_task_platfor.Auth.{User}
use distributed_task_platfor.Audit.{add_audit}
use distributed_task_platfor.Webhooks.Dispatch.{find_subscription}
use distributed_task_platfor.Webhooks.Subscriptions.{
  known_events, WebhookUpdateRequest, updated, replace_subscription, delete_subscription,
}
use distributed_task_platfor.Webhooks.Sending.{Posted, SendResult, send_result}
use distributed_task_platfor.Api.{
  Site, Request, External, Body, no_content, webhook_info, webhook_list, test_result, delivery_list,
  Reply, answer, http_error, Handler, entry,
}
use distributed_task_platfor.Api.Access.{admins, authorized}
use distributed_task_platfor.Api.Schemas.{
  WebhookCreateRequest, valid_webhook, valid_update, valid_limit,
}

abbrev pub delivery_status_name : DeliveryStatus → String
delivery_status_name DeliveryStatus.pending = "pending"
delivery_status_name DeliveryStatus.sent = "sent"
delivery_status_name DeliveryStatus.failed = "failed"

module _ (s : Settings) (x : External) where
  abbrev pub log_webhook : Request → User → String → ℕ → Db → Db
  log_webhook req u action id db =
      add_audit req.now (entry u action "webhook" (some (x.str id)) req.client) db

  abbrev pub new_subscription : WebhookCreateRequest → ℕ → WebhookSubscription
  new_subscription b id = record {
    id = id;
    name = b.name;
    url = b.url;
    secret = b.secret;
    events = b.events;
    is_active = true;
  }

  unfoldable pub create_webhook_as : WebhookCreateRequest → Request → User → Handler
  create_webhook_as b req admin site =
      if known_events b.events
      then (let sub = new_subscription b site.next_webhook_id in
          answer 201 (
            record site {
              db =
                  log_webhook req admin "webhook.create" sub.id
                    (record site.db { subscriptions = site.db.subscriptions ++ sub ∷ [] });
              next_webhook_id = suc site.next_webhook_id;
            },
            webhook_info sub,
          ))
      else http_error 400

  unfoldable pub create_webhook : WebhookCreateRequest → Request → Site → Site × Reply Body
  create_webhook b req site =
      authorized s x admins (valid_webhook b) (create_webhook_as b req) req site

  unfoldable pub list_webhooks : Request → Site → Site × Reply Body
  list_webhooks req site =
      authorized s x admins true
        (λ u after.
          answer 200 (after, webhook_list (reverse (order_by (λ t. t.id) after.db.subscriptions))))
        req site

  abbrev pub known_if_given : Option (List String) → Bool
  known_if_given none = true
  known_if_given (some es) = known_events es

  abbrev pub update_found :
      WebhookUpdateRequest
      → Request
      → User
      → Site
      → Option WebhookSubscription
      → Reply (Site × Body)
  update_found b req admin site none = http_error 404
  update_found b req admin site (some sub) =
      if known_if_given b.events
      then answer 200 (
        record site {
          db = log_webhook req admin "webhook.update" sub.id (record site.db {
            subscriptions = replace_subscription (updated b sub) site.db.subscriptions;
          });
        },
        webhook_info (updated b sub),
      )
      else http_error 400

  unfoldable pub update_webhook_as : ℕ → WebhookUpdateRequest → Request → User → Handler
  update_webhook_as id b req admin site =
      update_found b req admin site (find_subscription id site.db.subscriptions)

  unfoldable pub update_webhook : ℕ → WebhookUpdateRequest → Request → Site → Site × Reply Body
  update_webhook id b req site =
      authorized s x admins (valid_update b) (update_webhook_as id b req) req site

  abbrev pub delete_found :
      ℕ → Request → User → Site → Option WebhookSubscription → Reply (Site × Body)
  delete_found id req admin site none = http_error 404
  delete_found id req admin site (some sub) = answer 204 (
    record site { db = delete_subscription id (log_webhook req admin "webhook.delete" id site.db) },
    no_content,
  )

  unfoldable pub delete_webhook_as : ℕ → Request → User → Handler
  delete_webhook_as id req admin site =
      delete_found id req admin site (find_subscription id site.db.subscriptions)

  unfoldable pub delete_webhook : ℕ → Request → Site → Site × Reply Body
  delete_webhook id req site = authorized s x admins true (delete_webhook_as id req) req site

  -- `error or "ok"`.
  abbrev pub or_ok : String → String
  or_ok e = if e =ₛ "" then "ok" else e

  abbrev pub test_found :
      Request
      → (WebhookSubscription → Posted)
      → User
      → Site
      → Option WebhookSubscription
      → Reply (Site × Body)
  test_found req post admin site none = http_error 404
  test_found req post admin site (some sub) =
      let r = send_result x.str (post sub) in
      answer 200 (
        record site { db = log_webhook req admin "webhook.test" sub.id site.db },
        test_result r.sent (or_ok r.error) r.status,
      )

  -- `post` is what the request with the test payload does.
  unfoldable pub test_webhook :
      ℕ → (WebhookSubscription → Posted) → Request → Site → Site × Reply Body
  test_webhook id post req site =
      authorized s x admins true
        (λ u after. test_found req post u after (find_subscription id after.db.subscriptions)) req
        site

  unfoldable pub delivery_filters : Option ℕ → Option String → List (WebhookDelivery → Bool)
  delivery_filters subscription_id status =
      filter_if subscription_id (λ i d. d.subscription_id == i)
      ++ filter_if_text status (λ n d. delivery_status_name d.status =ₛ n)

  unfoldable pub list_deliveries :
      Option ℕ → Option String → ℕ → ℕ → Request → Site → Site × Reply Body
  list_deliveries subscription_id status limit offset req site =
      let test = passes (delivery_filters subscription_id status) in
      authorized s x admins (valid_limit limit)
        (λ u after. answer 200 (
          after,
          delivery_list (count test after.db.deliveries)
              (page (λ d. d.id) limit offset (select test after.db.deliveries)),
        ))
        req site
