-- ===== src/Api.antt =====
-- The HTTP API of backend/app/api: what a request carries, the state that the routes share, and how
-- a route answers. The handlers of the routes are in the modules below.
pub mod Access
pub mod Accounts
pub mod Users
pub mod Schemas
pub mod Tasks
pub mod Bulk
pub mod Webhooks
pub mod Batches
pub mod Reports
pub mod Router
pub mod Keeps
pub mod Names
pub mod Sound
use distributed_task_platfor.Prelude.{
  ℕ, String, ◌≡◌, sym, ap, ◌∙◌, Bool, true, false, Option, none, some, List, [], ◌∷◌,
}
use distributed_task_platfor.Model.Rows.{
  Task, AuditLog, TaskBatch, WebhookSubscription, WebhookDelivery, Worker, Attempt, TaskEvent,
}
use distributed_task_platfor.Model.Db.{Db}
use distributed_task_platfor.ApiTokens.{ApiToken, ApiTokens}
use distributed_task_platfor.Auth.{User, RefreshToken, Claims}
use distributed_task_platfor.Audit.{Entry}
use distributed_task_platfor.Stats.{Stats}
use distributed_task_platfor.Batches.{BatchProgress}
use distributed_task_platfor.RateLimit.{Hits}
use distributed_task_platfor.RateLimit.Registry.{Registry}

-- All tables of the database.
pub record Site : Type 0 where
  pub db : Db
  pub users : List User
  pub next_user_id : ℕ
  pub refresh_tokens : List RefreshToken
  pub api_tokens : ApiTokens
  pub batches : List TaskBatch
  pub next_batch_id : ℕ
  pub next_webhook_id : ℕ

-- The dictionaries of the API process, which no transaction covers.
pub record Memory : Type 0 where
  pub login_window : Hits
  pub login_failures : Hits
  pub limiters : Registry

pub record Platform : Type 0 where
  pub site : Site
  pub memory : Memory

-- What the handlers read of a request: its time, the host of the client, the token of its header
-- `Authorization`, and what Redis says if the limiter asks it.
pub record Request : Type 0 where
  pub now : ℕ
  pub client : Option String
  pub credentials : Option String
  pub redis_answer : Option Bool

-- The code that the platform calls: hashes, the encoding of JWT with the secret of the settings (a
-- token is read at a time), `str` of a number, `str.lower`, and the
-- `ilike` of the database.
pub record External : Type 0 where
  pub hash_token : String → String
  pub hash_password : String → String → String  -- with the salt of `gensalt`
  pub verify_password : String → String → Bool
  pub encode : Claims → String
  pub decode : ℕ → String → Option Claims
  pub str : ℕ → String
  pub lower : String → String
  pub ilike : String → String → Bool

-- The models of the responses, by the rows that they are made from.
pub data Body : Type 0 where
  no_content : Body
  user_out : User → Body
  token_response : String → String → User → Body  -- the access token, the refresh token
  token_created : String → ApiToken → Body
  token_list : List ApiToken → Body
  audit_list : ℕ → List AuditLog → Body
  task_info : Task → Body
  task_list : ℕ → List Task → Body
  task_detail : Task → List Attempt → List TaskEvent → Body
  timeline : ℕ → List TaskEvent → Body
  bulk_result : ℕ → List ℕ → List ℕ → Body  -- total, ids that succeeded, ids in conflict
  webhook_info : WebhookSubscription → Body
  webhook_list : List WebhookSubscription → Body
  test_result : Bool → String → Option ℕ → Body
  delivery_list : ℕ → List WebhookDelivery → Body
  batch_created : TaskBatch → BatchProgress → List ℕ → Body
  batch_tasks : TaskBatch → BatchProgress → ℕ → List Task → Body
  batch_list : ℕ → List (TaskBatch × BatchProgress) → Body
  batch_action : TaskBatch → BatchProgress → List ℕ → Body
  worker_list : List Worker → Body
  stats_out : Stats → Option ℕ → Body  -- with the depth of the queue

-- A response with its status, or the status of an exception: an `HTTPException`, the 422 of a body
-- that is not valid, or the 500 of any other.
pub data Reply {ℓ} (A : Type ℓ) : Type ℓ where
  answer : ℕ → A → Reply A
  http_error : ℕ → Reply A

-- A handler works in one session: the tables after its commit, or an exception.
abbrev pub Handler : Type 0
Handler = Site → Reply (Site × Body)

-- The session of a request that raises is closed with no commit.
abbrev pub commit : Site → Reply (Site × Body) → Site × Reply Body
commit site (answer status (site', body)) = (site', answer status body)
commit site (http_error status) = (site, http_error status)

-- The tables after the commit or the exception.
abbrev pub site_after : Site → Reply (Site × Body) → Site
site_after site r = (commit site r).0

-- A response, with the tables that it leaves.
pub answered_after :
    (site after : Site) (status : ℕ) (body : Body) (r : Reply (Site × Body))
    → r ≡ answer status (after, body)
    → r ≡ answer status (site_after site r, body)
answered_after site after status body r h =
    h ∙ ap (λ w. answer status (w, body)) (sym (ap (site_after site) h))

abbrev pub status_code {ℓ} : {A : Type ℓ} → Reply A → ℕ
status_code (answer status a) = status
status_code (http_error status) = status

abbrev pub is_error {ℓ} : {A : Type ℓ} → Reply A → Bool
is_error (answer status a) = false
is_error (http_error status) = true

-- The entry of the log that a handler writes.
abbrev pub entry : User → String → String → Option String → Option String → Entry
entry actor action resource_type resource_id ip = record {
  actor = some actor;
  actor_id = none;
  actor_username = none;
  action = action;
  resource_type = resource_type;
  resource_id = resource_id;
  ip_address = ip;
}

-- `request.client.host if request.client else "unknown"`.
abbrev pub client_or_unknown : Option String → String
client_or_unknown none = "unknown"
client_or_unknown (some host) = host
