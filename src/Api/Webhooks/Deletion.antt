-- ===== src/Api/Webhooks/Deletion.antt =====
-- A webhook that is deleted, `delete_webhook` of backend/app/api/routes/webhooks.py.
use distributed_task_platfor.Prelude.{
  ℕ, ◌≡◌, refl, sym, ap, ◌∙◌, Bool, false, not, Option, none, some, List, [], ◌∷◌, ◌==◌, select,
  count, arith,
}
use distributed_task_platfor.Model.Rows.{WebhookSubscription, WebhookDelivery}
use distributed_task_platfor.Model.Settings.{Settings}
use distributed_task_platfor.Auth.{User}
use distributed_task_platfor.Audit.{add_audit}
use distributed_task_platfor.Webhooks.Dispatch.{find_subscription}
use distributed_task_platfor.Webhooks.Subscriptions.{delete_subscription}
use distributed_task_platfor.Api.{
  Site, Request, External, Body, no_content, answer, commit, site_after, answered_after,
  status_code,
}
use distributed_task_platfor.Api.Webhooks.{delete_found, delete_webhook_as}

-- The deliveries of a subscription.
abbrev pub of_subscription : ℕ → WebhookDelivery → Bool
of_subscription i d = d.subscription_id == i

find-deleted :
    (i : ℕ) (subs : List WebhookSubscription)
    → find_subscription i (select (λ t. not (t.id == i)) subs) ≡ none
find-deleted i [] = refl
find-deleted i (t ∷ ts) = ground (arith, find-deleted i ts)

find-other :
    (i j : ℕ) (subs : List WebhookSubscription)
    → (j == i) ≡ false
    → find_subscription j (select (λ t. not (t.id == i)) subs) ≡ find_subscription j subs
find-other i j [] h = refl
find-other i j (t ∷ ts) h = ground (arith, h, find-other i j ts h)

deliveries-deleted :
    (i : ℕ) (ds : List WebhookDelivery)
    → count (of_subscription i) (select (λ d. not (d.subscription_id == i)) ds) ≡ 0
deliveries-deleted i [] = refl
deliveries-deleted i (d ∷ ds) = ground (arith, deliveries-deleted i ds)

deliveries-other :
    (i j : ℕ) (ds : List WebhookDelivery)
    → (j == i) ≡ false
    → select (of_subscription j) (select (λ d. not (d.subscription_id == i)) ds)
      ≡ select (of_subscription j) ds
deliveries-other i j [] h = refl
deliveries-other i j (d ∷ ds) h = ground (arith, h, deliveries-other i j ds h)

module _ (s : Settings) (x : External) where
  deleted :
      (id status : ℕ) (req : Request) (admin : User) (site after : Site) (body : Body)
      (o : Option WebhookSubscription)
      → delete_found s x id req admin site o ≡ answer status (after, body)
      → (after.db.subscriptions ≡ select (λ t. not (t.id == id)) site.db.subscriptions)
        × (after.db.deliveries ≡ select (λ d. not (d.subscription_id == id)) site.db.deliveries)
  unfolding delete_subscription add_audit
  deleted id status req admin site after body none h = cc h
  deleted id status req admin site after body (some sub) h =
      let e = sym (ap (λ r. (commit site r).0) h) in
      (ap (λ (w : Site). w.db.subscriptions) e, ap (λ (w : Site). w.db.deliveries) e)

  delete-answers :
      (id : ℕ) (req : Request) (admin : User) (sub : WebhookSubscription) (site : Site)
      → find_subscription id site.db.subscriptions ≡ some sub
      → (after : Site) × (delete_webhook_as s x id req admin site ≡ answer 204 (after, no_content))
  unfolding delete_webhook_as
  delete-answers id req admin sub site f = (_, ap (delete_found s x id req admin site) f)

  -- When an admin deletes a webhook that is there, the answer has status 204, the tables have no row
  -- for it and no delivery of it, so that the dispatcher sends it nothing, and the rows and the
  -- deliveries of every other webhook are as before.
  pub webhook_deleted :
      (id other : ℕ) (req : Request) (admin : User) (sub : WebhookSubscription) (site : Site)
      → find_subscription id site.db.subscriptions ≡ some sub
      → (other == id) ≡ false
      → (let reply = delete_webhook_as s x id req admin site in
          let db = (site_after site reply).db in
          (status_code reply ≡ 204)
          × (find_subscription id db.subscriptions ≡ none)
          × (count (of_subscription id) db.deliveries ≡ 0)
          × (find_subscription other db.subscriptions
              ≡ find_subscription other site.db.subscriptions)
          × (select (of_subscription other) db.deliveries
              ≡ select (of_subscription other) site.db.deliveries))
  unfolding delete_webhook_as
  webhook_deleted id other req admin sub site f n =
      let (left, first) = delete-answers id req admin sub site f in
      let h = answered_after site left 204 no_content _ first in
      let (subs, ds) =
        deleted id 204 req admin site (site_after site (delete_webhook_as s x id req admin site)) _
          _ h in
      (
        ap status_code first,
        ap (find_subscription id) subs ∙ find-deleted id site.db.subscriptions,
        ap (count (of_subscription id)) ds ∙ deliveries-deleted id site.db.deliveries,
        ap (find_subscription other) subs ∙ find-other id other site.db.subscriptions n,
        ap (select (of_subscription other)) ds ∙ deliveries-other id other site.db.deliveries n,
      )
