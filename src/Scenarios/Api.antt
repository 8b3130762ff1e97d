-- ===== src/Scenarios/Api.antt =====
-- The theorems on the requests at concrete inputs: an admin, tokens, a webhook, and tables that a
-- platform starts with.
use distributed_task_platfor.Prelude.{
  ltb, text_length, ℕ, ◌≡◌, refl, ap, ◌∙◌, String, true, false, Option, none, some, [], ◌∷◌, ◌=ₛ◌,
  length, select, count, if◌then◌else◌,
}
use distributed_task_platfor.Model.Status.{Priority, queued, cancelled, retryable, cancelable}
use distributed_task_platfor.Model.Rows.{Task, WebhookSubscription}
use distributed_task_platfor.Model.Settings.{default_settings}
use distributed_task_platfor.Model.Db.{get_task}
use distributed_task_platfor.ApiTokens.{generate_token, is_api_token, find_hash, expiry}
use distributed_task_platfor.Auth.{
  User, RefreshToken, Claims, create_refresh_token, refresh_is_valid, get_current_user,
  get_user_by_username,
}
use distributed_task_platfor.Auth.{require_roles}
use distributed_task_platfor.Auth.Tokens.{of_others}
use distributed_task_platfor.Webhooks.Dispatch.{find_subscription}
use distributed_task_platfor.Api.{
  Site, Memory, Platform, Request, External, Body, task_info, no_content, Reply, answer, http_error,
  status_code, site_after,
}
use distributed_task_platfor.Api.Users.{set_active_as, create_api_token_as}
use distributed_task_platfor.Api.Users.Lockout.{other_user, locked_out}
use distributed_task_platfor.Api.Users.Issue.{until, token_lets_in}
use distributed_task_platfor.Api.Schemas.{TaskCreate, valid_task, spec_of}
use distributed_task_platfor.Api.Tasks.{
  create_task_route, creating, create_task_as, retry_task_as, cancel_task_as,
}
use distributed_task_platfor.Api.Tasks.Answers.{summary, expected, work_answers}
use distributed_task_platfor.Api.Access.{current_user}
use distributed_task_platfor.Api.Tasks.Creating.{Unchanged}
use distributed_task_platfor.RateLimit.Registry.{task_create_allowed, ask, limiter_of}
use distributed_task_platfor.Api.Tasks.Once.{created_once}
use distributed_task_platfor.Api.Webhooks.{delete_webhook_as}
use distributed_task_platfor.Api.Webhooks.Deletion.{of_subscription, webhook_deleted}
use distributed_task_platfor.Api.Names.{HasNames}
use distributed_task_platfor.Scenarios.Limits.{listing}
use distributed_task_platfor.RateLimit.{allow, redis_allow, available}
use distributed_task_platfor.Api.Router.{Call, respond}
use distributed_task_platfor.Api.Sound.Whole.{installed, with_database, Run, platform_consistent}
use distributed_task_platfor.Stats.{build_stats, total}
use distributed_task_platfor.Stats.Totals.{stats_total}
use distributed_task_platfor.StatusChange.{
  set_status, after_change, change, record_event, assign_status,
}
use distributed_task_platfor.Model.Db.{put_task, add_outbox}
use distributed_task_platfor.Model.Result.{ok}
use distributed_task_platfor.Webhooks.Enqueue.{enqueue_for, enqueue_each, enqueue_delivery, matches}
use distributed_task_platfor.Tasks.{create_task, insert_task, new_task, place_task, enqueue}
use distributed_task_platfor.Tasks.Listing.{get_by_idempotency_key}
use distributed_task_platfor.Audit.{add_audit, audit_row}
use distributed_task_platfor.Auth.{bootstrap_admin}
use distributed_task_platfor.Invariant.{legal, status_after, status_of}
use distributed_task_platfor.Invariant.Reach.{Step, Reach, empty_db}
use distributed_task_platfor.Scenarios.{email, one_task, one_task_created, claimed, blocked_child}

abbrev ann : User
ann = record {
  id = 1;
  username = "ann";
  password_hash = "secret";
  role = "admin";
  is_active = true;
  last_login_at = none;
}

abbrev old_claims : Claims
old_claims = record { subject = some 1; token_type = "refresh"; jti = "old"; exp = 900 }

abbrev decoded : String → Option Claims
decoded t =
    if t =ₛ "old"
    then some old_claims
    else if t =ₛ "acc"
    then some (record { subject = some 1; token_type = "access"; jti = "acc"; exp = 900 })
    else if t =ₛ "new"
    then some (create_refresh_token default_settings 500 "new" 1)
    else if t =ₛ "next"
    then some (create_refresh_token default_settings 600 "next" 1)
    else none

abbrev unexpired : ℕ → Option Claims → Option Claims
unexpired now none = none
unexpired now (some c) = if ltb now c.exp then some c else none

-- A token is the text of its `jti`.
abbrev code : External
code = record {
  hash_token = λ t. t;
  hash_password = λ salt p. p;
  verify_password = λ p h. p =ₛ h;
  encode = λ c. c.jti;
  decode = λ at t. unexpired at (decoded t);
  str = λ n. "1";
  lower = λ text. text;
  ilike = λ a b. true;
}

abbrev old_row : RefreshToken
old_row = record { user_id = 1; jti = "old"; expires_at = 900; revoked_at = none }

abbrev hook : WebhookSubscription
hook = record {
  id = 1;
  name = "hook";
  url = "http://a";
  secret = none;
  events = "*" ∷ [];
  is_active = true;
}

abbrev office : Site
office = record {
  db = record empty_db { subscriptions = hook ∷ [] };
  users = ann ∷ [];
  next_user_id = 2;
  refresh_tokens = old_row ∷ [];
  api_tokens = record { rows = []; next_id = 1 };
  batches = [];
  next_batch_id = 1;
  next_webhook_id = 2;
}

abbrev at_time : ℕ → Request
at_time now = record { now = now; client = none; credentials = some "tp_s"; redis_answer = none }

abbrev quiet : Memory
quiet = record { login_window = []; login_failures = []; limiters = [] }

abbrev open_office : Platform
open_office = record { site = office; memory = quiet }

locked_out_example :
    (let reply = set_active_as default_settings code 1 false (at_time 500) ann office in
      let after = site_after office reply in
      let u =
        (get_current_user code.hash_token
          (code.decode 700)
          (is_api_token default_settings)
          700
          (some "old")
          after.api_tokens.rows
          after.users).0 in
      (status_code reply ≡ 200)
      × (other_user 1 u ≡ u)
      × (other_user 1 (get_user_by_username "ann" after.users)
          ≡ get_user_by_username "ann" after.users)
      × (of_others 1 (refresh_is_valid 700 "old" after.refresh_tokens)
          ≡ refresh_is_valid 700 "old" after.refresh_tokens))
locked_out_example =
    locked_out default_settings code (at_time 500) ann ann 1 700 office (some "old") "ann" "old"
      refl

webhook_deleted_example :
    (let reply = delete_webhook_as default_settings code 1 (at_time 500) ann office in
      let db = (site_after office reply).db in
      (status_code reply ≡ 204)
      × (find_subscription 1 db.subscriptions ≡ none)
      × (count (of_subscription 1) db.deliveries ≡ 0)
      × (find_subscription 2 db.subscriptions ≡ find_subscription 2 office.db.subscriptions)
      × (select (of_subscription 2) db.deliveries
          ≡ select (of_subscription 2) office.db.deliveries))
webhook_deleted_example =
    webhook_deleted default_settings code 1 2 (at_time 500) ann hook office refl refl

token_lets_in_example :
    (let reply = create_api_token_as default_settings code "s" "ci" (at_time 500) ann office in
      let after = site_after office reply in
      (status_code reply ≡ 201)
      × ((get_current_user code.hash_token
            (code.decode 700)
            (is_api_token default_settings)
            700
            (some (generate_token default_settings "s"))
            after.api_tokens.rows
            after.users).0
          ≡ until 700 (expiry default_settings 500 none) ann))
unfolding find_hash
token_lets_in_example =
    token_lets_in default_settings code "s" "ci" (at_time 500) 700 ann office (refl, refl) refl

abbrev at_work : Site
at_work = record office { db = claimed }

work_answers_example :
    (summary (retry_task_as default_settings code 2 1 (at_time 500) ann at_work)
      ≡ expected retryable queued (get_task 1 claimed))
    × (summary (cancel_task_as default_settings code 2 1 (at_time 500) ann at_work)
        ≡ expected cancelable cancelled (get_task 1 claimed))
work_answers_example =
    work_answers default_settings code 1 1 (at_time 500) ann at_work blocked_child

stats_total_example :
    ((build_stats claimed).tasks_total ≡ length claimed.tasks)
    × (total (build_stats claimed).tasks_by_priority ≡ length claimed.tasks)
    × (total (build_stats claimed).tasks_by_type ≡ length claimed.tasks)
    × ((build_stats claimed).attempts_total ≡ length claimed.attempts)
    × ((build_stats claimed).workers_total ≡ length claimed.workers)
stats_total_example = stats_total claimed

abbrev started : Platform
started = installed default_settings "hash"

abbrev with_one : Platform
with_one = with_database one_task started

abbrev asked : Platform
asked = (respond default_settings code listing none Call.lists_workers (at_time 500) with_one).0

started_empty : started.site.db ≡ empty_db
unfolding installed bootstrap_admin
started_empty = refl

one_created : create_task default_settings 3 100 (email []) started.site.db ≡ ok one_task
one_created = ap (create_task default_settings 3 100 (email [])) started_empty ∙ one_task_created

worked : Run default_settings code started asked
worked =
    Run.requested listing none Call.lists_workers (at_time 500)
      (Run.stepped one_task Run.start (Step.creates 3 100 (email []) one_created) refl) refl

platform_consistent_example :
    (legal 1 none asked.site.db.events ≡ true)
    × (status_after 1 none asked.site.db.events ≡ status_of (get_task 1 asked.site.db))
    × HasNames asked.site.next_user_id asked.site.users
platform_consistent_example = platform_consistent default_settings code "hash" asked 1 worked

abbrev keyed : TaskCreate
keyed = record {
  task_type = "email";
  payload = "{}";
  priority = Priority.normal;
  max_attempts = none;
  idempotency_key = some "k";
  schedule_at = none;
  naive = false;
  depends_on = none;
}

-- A request of a user who is logged in.
abbrev by_ann : ℕ → Request
by_ann now = record { now = now; client = none; credentials = some "acc"; redis_answer = some true }

abbrev first_reply : Platform × Reply Body
first_reply = create_task_route default_settings code 3 keyed (by_ann 500) open_office

abbrev shown_body : Reply Body → Body
shown_body (answer status body) = body
shown_body (http_error status) = no_content

keyed_created : first_reply.1 ≡ answer 201 (shown_body first_reply.1)
unfolding create_task_route creating current_user get_current_user is_api_token require_roles
    task_create_allowed ask limiter_of allow redis_allow available valid_task text_length
    create_task_as create_task insert_task new_task place_task enqueue set_status after_change
    add_outbox change enqueue_for enqueue_each enqueue_delivery matches put_task get_task
    record_event assign_status spec_of get_by_idempotency_key add_audit audit_row
keyed_created = refl

started_office : Reach default_settings empty_db office.db
started_office = Reach.next Reach.here (Step.subscribes (hook ∷ []) refl)

created_once_example :
    (t : Task) × (t.id ≡ 1)
    × Unchanged default_settings code 200
        (task_info t)
        first_reply.0.site
        (create_task_route default_settings code 3 keyed (by_ann 600) first_reply.0)
created_once_example =
    created_once default_settings code 3 3 "k" keyed keyed (by_ann 500) (by_ann 600) open_office
      first_reply.0 (shown_body first_reply.1) started_office refl refl keyed_created refl
