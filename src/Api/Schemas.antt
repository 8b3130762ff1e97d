-- ===== src/Api/Schemas.antt =====
-- backend/app/schemas: the bodies of the requests and the bounds of their fields. A body out of
-- bounds is answered with status 422 before the handler runs.
use distributed_task_platfor.Prelude.{
  ℕ, String, Bool, true, ◌&&◌, ◌||◌, Option, none, some, List, [], ◌∷◌, leb, length, text_length,
  contains_text,
}
use distributed_task_platfor.Model.Status.{Priority}
use distributed_task_platfor.Tasks.{TaskSpec}
use distributed_task_platfor.Webhooks.Subscriptions.{WebhookUpdateRequest}

-- `Field(min_length=…, max_length=…)`.
abbrev pub length_between : ℕ → ℕ → String → Bool
length_between low high t = leb low (text_length t) && leb (text_length t) high

pub record RegisterRequest : Type 0 where
  pub username : String
  pub password : String

unfoldable pub valid_registration : RegisterRequest → Bool
valid_registration b = length_between 3 100 b.username && length_between 8 128 b.password

pub record ChangePasswordRequest : Type 0 where
  pub current_password : String
  pub new_password : String

unfoldable pub valid_change : ChangePasswordRequest → Bool
valid_change b = length_between 1 128 b.current_password && length_between 8 128 b.new_password

-- `pattern="|".join(ROLES)`: the pattern is searched for in the text, it is not anchored.
unfoldable pub valid_role : String → Bool
valid_role r = contains_text "admin" r || contains_text "operator" r || contains_text "viewer" r

-- `limit` and `offset` of a listing, with the largest page 200.
abbrev pub valid_limit : ℕ → Bool
valid_limit limit = leb 1 limit && leb limit 200

pub record TaskCreate : Type 0 where
  pub task_type : String
  pub payload : String
  pub priority : Priority
  pub max_attempts : Option ℕ
  pub idempotency_key : Option String
  pub schedule_at : Option ℕ
  pub naive : Bool  -- that time has no time zone
  pub depends_on : Option (List ℕ)

-- A bound on a field that may be missing.
abbrev pub if_given {ℓ} : {A : Type ℓ} → (A → Bool) → Option A → Bool
if_given p none = true
if_given p (some a) = p a

unfoldable pub valid_task : TaskCreate → Bool
valid_task b =
    length_between 1 100 b.task_type
    && if_given (λ n. leb 1 n && leb n 10) b.max_attempts
    && if_given (λ k. leb (text_length k) 255) b.idempotency_key
    && if_given (λ ps. leb (length ps) 100) b.depends_on

abbrev pub or_empty : Option (List ℕ) → List ℕ
or_empty none = []
or_empty (some ps) = ps

-- The keyword arguments that the routes pass to `create_task`.
unfoldable pub spec_of : TaskCreate → TaskSpec
spec_of b = record {
  task_type = b.task_type;
  payload = b.payload;
  priority = b.priority;
  max_attempts = b.max_attempts;
  idempotency_key = b.idempotency_key;
  created_by = none;
  schedule_at = b.schedule_at;
  naive = b.naive;
  batch_id = none;
  depends_on = or_empty b.depends_on;
}

abbrev pub specs_of : List TaskCreate → List TaskSpec
specs_of [] = []
specs_of (b ∷ bs) = spec_of b ∷ specs_of bs

abbrev pub every {ℓ} : {A : Type ℓ} → (A → Bool) → List A → Bool
every p [] = true
every p (a ∷ as_) = p a && every p as_

-- `Field(min_length=1, max_length=1000)` of a list.
abbrev pub valid_count {ℓ} : {A : Type ℓ} → List A → Bool
valid_count items = leb 1 (length items) && leb (length items) 1000

unfoldable pub valid_bulk : List TaskCreate → Bool
valid_bulk bs = valid_count bs && every valid_task bs

pub record WebhookCreateRequest : Type 0 where
  pub name : String
  pub url : String
  pub events : List String
  pub secret : Option String

unfoldable pub valid_webhook : WebhookCreateRequest → Bool
valid_webhook b =
    leb (text_length b.name) 255
    && length_between 1 2048 b.url
    && if_given (λ k. leb (text_length k) 512) b.secret

unfoldable pub valid_update : WebhookUpdateRequest → Bool
valid_update b =
    if_given (λ n. leb (text_length n) 255) b.name
    && if_given (λ u. leb (text_length u) 2048) b.url
    && if_given (λ k. leb (text_length k) 512) b.secret

pub record BatchCreateRequest : Type 0 where
  pub name : String
  pub tasks : List TaskCreate

unfoldable pub valid_batch : BatchCreateRequest → Bool
valid_batch b = leb (text_length b.name) 255 && valid_bulk b.tasks
