-- ===== src/Api/Router.antt =====
-- backend/app/api/router.py: all requests by their routes. What the handlers
-- draw (a salt, the texts of `uuid4` and `token_hex`) and what the receiver of a test message
-- answers stand with the request.
use distributed_task_platfor.Prelude.{ℕ, String, Bool, Option, List}
use distributed_task_platfor.Model.Rows.{WebhookSubscription}
use distributed_task_platfor.Model.Settings.{Settings}
use distributed_task_platfor.Audit.{AuditFilters}
use distributed_task_platfor.RateLimit.Registry.{
  Registry, Scope, Gate, passed_on, too_many, middleware,
}
use distributed_task_platfor.Tasks.Listing.{Filters}
use distributed_task_platfor.Webhooks.Sending.{Posted}
use distributed_task_platfor.Webhooks.Subscriptions.{WebhookUpdateRequest}
use distributed_task_platfor.Api.{Site, Platform, Request, External, Body, Reply, http_error}
use distributed_task_platfor.Api.Schemas.{
  RegisterRequest, ChangePasswordRequest, TaskCreate, WebhookCreateRequest, BatchCreateRequest,
}
use distributed_task_platfor.Api.Access.{with_site}
use distributed_task_platfor.Api.Accounts.{register, login, refresh, logout}
use distributed_task_platfor.Api.Users.{
  me, change_password, set_active, set_role, create_api_token, list_api_tokens, revoke_api_token,
}
use distributed_task_platfor.Api.Tasks.{
  create_task_route, list_tasks_route, get_task_route, retry_task_route, cancel_task_route,
  task_events_route,
}
use distributed_task_platfor.Api.Bulk.{bulk_create_route, bulk_retry_route, bulk_cancel_route}
use distributed_task_platfor.Api.Webhooks.{
  create_webhook, list_webhooks, update_webhook, delete_webhook, test_webhook, list_deliveries,
}
use distributed_task_platfor.Api.Batches.{
  create_batch_route, list_batches_route, get_batch_route, cancel_batch_route,
}
use distributed_task_platfor.Api.Reports.{list_audit_route, list_workers_route, get_stats_route}

pub data Call : Type 0 where
  registers : String → RegisterRequest → Call
  logs_in : String → String → String → String → Call
  refreshes : String → String → String → Call
  logs_out : String → Call
  asks_me : Call
  changes_password : String → ChangePasswordRequest → Call
  sets_active : ℕ → Bool → Call
  sets_role : ℕ → String → Call
  creates_token : String → String → Call
  lists_tokens : Call
  revokes_token : ℕ → Call
  creates_task : ℕ → TaskCreate → Call
  lists_tasks : Filters → ℕ → ℕ → Call
  gets_task : ℕ → Call
  retries_task : ℕ → ℕ → Call
  cancels_task : ℕ → ℕ → Call
  lists_events : ℕ → Call
  creates_tasks : ℕ → List TaskCreate → Call
  retries_tasks : ℕ → List ℕ → Call
  cancels_tasks : ℕ → List ℕ → Call
  creates_webhook : WebhookCreateRequest → Call
  lists_webhooks : Call
  updates_webhook : ℕ → WebhookUpdateRequest → Call
  deletes_webhook : ℕ → Call
  tests_webhook : ℕ → (WebhookSubscription → Posted) → Call
  lists_deliveries : Option ℕ → Option String → ℕ → ℕ → Call
  creates_batch : ℕ → BatchCreateRequest → Call
  lists_batches : ℕ → ℕ → Call
  gets_batch : ℕ → ℕ → ℕ → Call
  cancels_batch : ℕ → ℕ → Call
  lists_audit : AuditFilters → ℕ → ℕ → Call
  lists_workers : Call
  gets_stats : Option ℕ → Call

module _ (s : Settings) (x : External) where
  -- A route that leaves the memory of the process alone.
  abbrev pub on_site :
      (Request → Site → Site × Reply Body) → Request → Platform → Platform × Reply Body
  on_site route req p = with_site s x p.memory (route req p.site)

  unfoldable pub serve : Call → Request → Platform → Platform × Reply Body
  serve (registers salt b) = register s x salt b
  serve (logs_in username password jti access_jti) = login s x username password jti access_jti
  serve (refreshes token jti access_jti) = refresh s x token jti access_jti
  serve (logs_out token) = logout s x token
  serve asks_me = on_site (me s x)
  serve (changes_password salt b) = on_site (change_password s x salt b)
  serve (sets_active id b) = on_site (set_active s x id b)
  serve (sets_role id r) = on_site (set_role s x id r)
  serve (creates_token secret name) = on_site (create_api_token s x secret name)
  serve lists_tokens = on_site (list_api_tokens s x)
  serve (revokes_token id) = on_site (revoke_api_token s x id)
  serve (creates_task depth b) = create_task_route s x depth b
  serve (lists_tasks f limit offset) = on_site (list_tasks_route s x f limit offset)
  serve (gets_task id) = on_site (get_task_route s x id)
  serve (retries_task depth id) = on_site (retry_task_route s x depth id)
  serve (cancels_task depth id) = on_site (cancel_task_route s x depth id)
  serve (lists_events id) = on_site (task_events_route s x id)
  serve (creates_tasks depth bs) = bulk_create_route s x depth bs
  serve (retries_tasks depth ids) = on_site (bulk_retry_route s x depth ids)
  serve (cancels_tasks depth ids) = on_site (bulk_cancel_route s x depth ids)
  serve (creates_webhook b) = on_site (create_webhook s x b)
  serve lists_webhooks = on_site (list_webhooks s x)
  serve (updates_webhook id b) = on_site (update_webhook s x id b)
  serve (deletes_webhook id) = on_site (delete_webhook s x id)
  serve (tests_webhook id post) = on_site (test_webhook s x id post)
  serve (lists_deliveries sub status limit offset) =
      on_site (list_deliveries s x sub status limit offset)
  serve (creates_batch depth b) = on_site (create_batch_route s x depth b)
  serve (lists_batches limit offset) = on_site (list_batches_route s x limit offset)
  serve (gets_batch id limit offset) = on_site (get_batch_route s x id limit offset)
  serve (cancels_batch depth id) = on_site (cancel_batch_route s x depth id)
  serve (lists_audit f limit offset) = on_site (list_audit_route s x f limit offset)
  serve lists_workers = on_site (list_workers_route s x)
  serve (gets_stats depth) = on_site (get_stats_route s x depth)

  -- The request goes on to its route, or the middleware answers it.
  abbrev pub through : Call → Request → Platform → Registry × Gate → Platform × Reply Body
  through c req p (r, passed_on) =
      serve c req (record p { memory = record p.memory { limiters = r } })
  through c req p (r, too_many window) =
      (record p { memory = record p.memory { limiters = r } }, http_error 429)

  -- A request as it reaches the application, with the answer of Redis to the middleware.
  unfoldable pub respond : Scope → Option Bool → Call → Request → Platform → Platform × Reply Body
  respond scope answer c req p =
      through c req p
        (middleware x.lower x.str (x.decode req.now) s req.now answer scope p.memory.limiters)
