-- ===== src/Api/Sound/Runs.antt =====
-- What the requests of backend/app/api/router.py keep, one by one and in a run.
use distributed_task_platfor.Prelude.{
  ℕ, String, Bool, Option, none, some, List, [], ◌∷◌, inl, inr, Bool-cases,
}
use distributed_task_platfor.Model.Rows.{Task, TaskEvent, TaskBatch}
use distributed_task_platfor.Model.Settings.{Settings}
use distributed_task_platfor.Model.Db.{get_task}
use distributed_task_platfor.Auth.{User, get_user_by_username}
use distributed_task_platfor.RateLimit.{login_failure_limiter}
use distributed_task_platfor.Tasks.Listing.{get_events}
use distributed_task_platfor.Webhooks.Dispatch.{find_subscription}
use distributed_task_platfor.Api.{Site, Platform, Request, External, Handler, client_or_unknown}
use distributed_task_platfor.Api.Access.{Roles, authorized}
use distributed_task_platfor.Api.Accounts.{
  verified, login_result, login, login_as, register, refresh, logout,
}
use distributed_task_platfor.Api.Users.{
  me, change_password, set_active, set_role, create_api_token, list_api_tokens, revoke_api_token,
}
use distributed_task_platfor.Api.Tasks.{
  create_task_route, list_tasks_route, detail_reply, get_task_route, retry_task_route,
  cancel_task_route, timeline_reply, task_events_route,
}
use distributed_task_platfor.Api.Bulk.{bulk_create_route, bulk_retry_route, bulk_cancel_route}
use distributed_task_platfor.Api.Webhooks.{
  create_webhook, list_webhooks, update_webhook, delete_webhook, test_webhook, list_deliveries,
}
use distributed_task_platfor.Api.Batches.{
  find_batch, batch_reply, create_batch_route, list_batches_route, get_batch_route,
  cancel_batch_route,
}
use distributed_task_platfor.Api.Reports.{list_audit_route, list_workers_route, get_stats_route}
use distributed_task_platfor.Api.Router.{Call, serve}
use distributed_task_platfor.Api.Keeps.{
  After, Kept, IsFree, commit-keeps, authorized-keeps, limited-keeps, creating-keeps,
}
use distributed_task_platfor.Api.Sound.{
  IsSound, register-IsSound, login-IsSound, refresh-IsSound, logout-IsSound,
  change_password-IsSound, set_active-IsSound, set_role-IsSound, create_token-IsSound,
  revoke_token-IsSound,
}
use distributed_task_platfor.Api.Sound.Work.{
  create_task-IsSound, retry_task-IsSound, cancel_task-IsSound, bulk_create-IsSound,
  bulk_retry-IsSound, bulk_cancel-IsSound,
}
use distributed_task_platfor.Api.Sound.Others.{
  create_webhook-IsSound, update_webhook-IsSound, delete_webhook-IsSound, test_found-IsSound,
  create_batch-IsSound, cancel_batch-IsSound,
}

module _ (s : Settings) (x : External) where
  IsSound-free : IsFree s x (IsSound s)
  IsSound-free site rows h = record { reach = h.reach; names = h.names }

  -- A route under `authorized`, from what its handler keeps.
  by_user :
      (roles : Roles) (valid : Bool) (handler : User → Handler) (req : Request) (site : Site)
      → Kept s x (IsSound s) handler
      → IsSound s site
      → IsSound s (authorized s x roles valid handler req site).0
  by_user roles valid handler req site k h =
      authorized-keeps s x (IsSound s) roles valid handler req site IsSound-free k h

  detail-IsSound :
      (id : ℕ) (site : Site) (o : Option Task)
      → IsSound s site
      → After (IsSound s) (detail_reply s x id site o)
  detail-IsSound id site none h = tt
  detail-IsSound id site (some t) h = h

  timeline-IsSound :
      (id : ℕ) (site : Site) (es : List TaskEvent) (o : Option Task)
      → IsSound s site
      → After (IsSound s) (timeline_reply s x id site es o)
  timeline-IsSound id site [] none h = tt
  timeline-IsSound id site [] (some t) h = h
  timeline-IsSound id site (e ∷ es) o h = h

  batch_reply-IsSound :
      (id limit offset : ℕ) (site : Site) (o : Option TaskBatch)
      → IsSound s site
      → After (IsSound s) (batch_reply s x id limit offset site o)
  batch_reply-IsSound id limit offset site none h = tt
  batch_reply-IsSound id limit offset site (some b) h = h

  result-IsSound :
      (req : Request) (jti access_jti : String) (p : Platform) (o : Option User)
      → IsSound s p.site
      → IsSound s (login_result s x req jti access_jti p o).0.site
  result-IsSound req jti access_jti p none h = h
  result-IsSound req jti access_jti p (some u) h =
      commit-keeps s x (IsSound s) p.site (login_as s x req jti access_jti u p.site) h
        (login-IsSound s x req jti access_jti u p.site h)

  login_route-IsSound :
      (username password jti access_jti : String) (req : Request) (p : Platform)
      → IsSound s p.site
      → IsSound s (login s x username password jti access_jti req p).0.site
  unfolding login
  login_route-IsSound username password jti access_jti req p h =
      elim (Bool-cases
        (login_failure_limiter s req.now (client_or_unknown req.client) p.memory.login_failures)) [
          | inl e ↦ rw e (
              result-IsSound req jti access_jti p
                (verified s x password (get_user_by_username username p.site.users)) h)
          | inr e ↦ rw e h
        ]

  -- One request, by its route.
  pub serve-IsSound :
      (c : Call) (req : Request) (p : Platform)
      → IsSound s p.site
      → IsSound s (serve s x c req p).0.site
  unfolding serve register refresh logout me change_password set_active set_role create_api_token
      list_api_tokens revoke_api_token create_task_route list_tasks_route get_task_route
      retry_task_route cancel_task_route task_events_route bulk_create_route bulk_retry_route
      bulk_cancel_route create_webhook list_webhooks update_webhook delete_webhook test_webhook
      list_deliveries create_batch_route list_batches_route get_batch_route cancel_batch_route
      list_audit_route list_workers_route get_stats_route
  serve-IsSound (Call.registers salt b) req p h =
      limited-keeps s x (IsSound s) _ _ req p (λ site k. register-IsSound s x salt b req site k) h
  serve-IsSound (Call.logs_in username password jti access_jti) req p h =
      login_route-IsSound username password jti access_jti req p h
  serve-IsSound (Call.refreshes token jti access_jti) req p h =
      limited-keeps s x (IsSound s) _ _ req p
        (λ site k. refresh-IsSound s x token jti access_jti req site k) h
  serve-IsSound (Call.logs_out token) req p h =
      limited-keeps s x (IsSound s) _ _ req p (λ site k. logout-IsSound s x token req site k) h
  serve-IsSound Call.asks_me req p h = by_user _ _ _ req p.site (λ u site k. k) h
  serve-IsSound (Call.changes_password salt b) req p h =
      by_user _ _ _ req p.site (λ u site k. change_password-IsSound s x salt b req u site k) h
  serve-IsSound (Call.sets_active id b) req p h =
      by_user _ _ _ req p.site (λ u site k. set_active-IsSound s x id b req u site k) h
  serve-IsSound (Call.sets_role id r) req p h =
      by_user _ _ _ req p.site (λ u site k. set_role-IsSound s x id r req u site k) h
  serve-IsSound (Call.creates_token secret name) req p h =
      by_user _ _ _ req p.site (λ u site k. create_token-IsSound s x secret name req u site k) h
  serve-IsSound Call.lists_tokens req p h = by_user _ _ _ req p.site (λ u site k. k) h
  serve-IsSound (Call.revokes_token id) req p h =
      by_user _ _ _ req p.site (λ u site k. revoke_token-IsSound s x id req u site k) h
  serve-IsSound (Call.creates_task depth b) req p h =
      creating-keeps s x (IsSound s) _ _ req p IsSound-free
        (λ u site k. create_task-IsSound s x depth b req u site k) h
  serve-IsSound (Call.lists_tasks f limit offset) req p h =
      by_user _ _ _ req p.site (λ u site k. k) h
  serve-IsSound (Call.gets_task id) req p h =
      by_user _ _ _ req p.site (λ u site k. detail-IsSound id site (get_task id site.db) k) h
  serve-IsSound (Call.retries_task depth id) req p h =
      by_user _ _ _ req p.site (λ u site k. retry_task-IsSound s x depth id req u site k) h
  serve-IsSound (Call.cancels_task depth id) req p h =
      by_user _ _ _ req p.site (λ u site k. cancel_task-IsSound s x depth id req u site k) h
  serve-IsSound (Call.lists_events id) req p h =
      by_user _ _ _ req p.site
        (λ u site k. timeline-IsSound id site (get_events id site.db) (get_task id site.db) k) h
  serve-IsSound (Call.creates_tasks depth bs) req p h =
      creating-keeps s x (IsSound s) _ _ req p IsSound-free
        (λ u site k. bulk_create-IsSound s x depth bs req u site k) h
  serve-IsSound (Call.retries_tasks depth ids) req p h =
      by_user _ _ _ req p.site (λ u site k. bulk_retry-IsSound s x depth ids req u site k) h
  serve-IsSound (Call.cancels_tasks depth ids) req p h =
      by_user _ _ _ req p.site (λ u site k. bulk_cancel-IsSound s x depth ids req u site k) h
  serve-IsSound (Call.creates_webhook b) req p h =
      by_user _ _ _ req p.site (λ u site k. create_webhook-IsSound s x b req u site k) h
  serve-IsSound Call.lists_webhooks req p h = by_user _ _ _ req p.site (λ u site k. k) h
  serve-IsSound (Call.updates_webhook id b) req p h =
      by_user _ _ _ req p.site (λ u site k. update_webhook-IsSound s x id b req u site k) h
  serve-IsSound (Call.deletes_webhook id) req p h =
      by_user _ _ _ req p.site (λ u site k. delete_webhook-IsSound s x id req u site k) h
  serve-IsSound (Call.tests_webhook id post) req p h =
      by_user _ _ _ req p.site
        (λ u site k.
          test_found-IsSound s x req post u site (find_subscription id site.db.subscriptions) k)
        h
  serve-IsSound (Call.lists_deliveries sub status limit offset) req p h =
      by_user _ _ _ req p.site (λ u site k. k) h
  serve-IsSound (Call.creates_batch depth b) req p h =
      by_user _ _ _ req p.site (λ u site k. create_batch-IsSound s x depth b req u site k) h
  serve-IsSound (Call.lists_batches limit offset) req p h =
      by_user _ _ _ req p.site (λ u site k. k) h
  serve-IsSound (Call.gets_batch id limit offset) req p h =
      by_user _ _ _ req p.site
        (λ u site k. batch_reply-IsSound id limit offset site (find_batch id site.batches) k) h
  serve-IsSound (Call.cancels_batch depth id) req p h =
      by_user _ _ _ req p.site (λ u site k. cancel_batch-IsSound s x depth id req u site k) h
  serve-IsSound (Call.lists_audit f limit offset) req p h =
      by_user _ _ _ req p.site (λ u site k. k) h
  serve-IsSound Call.lists_workers req p h = by_user _ _ _ req p.site (λ u site k. k) h
  serve-IsSound (Call.gets_stats depth) req p h = by_user _ _ _ req p.site (λ u site k. k) h
