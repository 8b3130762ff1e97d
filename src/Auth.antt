-- ===== src/Auth.antt =====
-- backend/app/services/auth.py: the refresh tokens in the database, users, and the checks of a
-- request's user. The encoding of JWT and the hashes are parameters.
pub mod Tokens
pub mod Access
pub mod Replaced
use distributed_task_platfor.Prelude.{
  ℕ, suc, ◌+◌, ◌*◌, ◌/◌, String, Bool, true, false, ◌&&◌, Option, none, some, List, [], ◌∷◌, ◌++◌,
  ◌==◌, ◌=ₛ◌, leb, is_none, is_some, count, member_text, if◌then◌else◌,
}
use distributed_task_platfor.ApiTokens.{ApiToken, authenticate}
use distributed_task_platfor.Model.Settings.{Settings}
use distributed_task_platfor.Scheduler.{day}

-- A minute.
abbrev pub minute : ℕ
minute = 60_000_000

pub record RefreshToken : Type 0 where
  pub user_id : ℕ
  pub jti : String
  pub expires_at : ℕ
  pub revoked_at : Option ℕ

abbrev pub find_refresh : String → List RefreshToken → Option RefreshToken
find_refresh jti [] = none
find_refresh jti (t ∷ ts) = if t.jti =ₛ jti then some t else find_refresh jti ts

-- `refresh_is_valid` on the row that `_stored_refresh` found.
abbrev pub usable : ℕ → Option RefreshToken → Option RefreshToken
usable now none = none
usable now (some t) =
    if is_some t.revoked_at then none else if leb t.expires_at now then none else some t

unfoldable pub refresh_is_valid : ℕ → String → List RefreshToken → Option RefreshToken
refresh_is_valid now jti ts = usable now (find_refresh jti ts)

-- `persist_refresh_token`.
unfoldable pub persist_refresh_token : ℕ → String → ℕ → List RefreshToken → List RefreshToken
persist_refresh_token user_id jti exp ts =
    ts ++ record { user_id = user_id; jti = jti; expires_at = exp; revoked_at = none } ∷ []

-- `revoke_refresh`, on the row of a token.
unfoldable pub revoke_refresh : ℕ → String → List RefreshToken → List RefreshToken
revoke_refresh now jti [] = []
revoke_refresh now jti (t ∷ ts) =
    (if t.jti =ₛ jti then record t { revoked_at = some now } else t) ∷ revoke_refresh now jti ts

abbrev pub is_active_of : ℕ → RefreshToken → Bool
is_active_of user_id t = (t.user_id == user_id) && is_none t.revoked_at

unfoldable pub revoke_rows : ℕ → ℕ → List RefreshToken → List RefreshToken
revoke_rows now user_id [] = []
revoke_rows now user_id (t ∷ ts) =
    (if is_active_of user_id t then record t { revoked_at = some now } else t)
    ∷ revoke_rows now user_id ts

unfoldable pub revoke_all_refresh_tokens : ℕ → ℕ → List RefreshToken → List RefreshToken × ℕ
revoke_all_refresh_tokens now user_id ts =
    (revoke_rows now user_id ts, count (is_active_of user_id) ts)

pub record User : Type 0 where
  pub id : ℕ
  pub username : String
  pub password_hash : String
  pub role : String
  pub is_active : Bool
  pub last_login_at : Option ℕ

abbrev pub find_user : ℕ → List User → Option User
find_user i [] = none
find_user i (u ∷ us) = if u.id == i then some u else find_user i us

-- A user that is there and active; anything else is the exception with status 401.
abbrev pub active_user : Option User → Option User
active_user none = none
active_user (some u) = if u.is_active then some u else none

-- The payload of a token: `sub` as the number that `int` reads, or none where it cannot.
pub record Claims : Type 0 where
  pub subject : Option ℕ
  pub token_type : String
  pub jti : String
  pub exp : ℕ

-- A JWT carries the seconds of a datetime without their fraction.
abbrev pub whole_seconds : ℕ → ℕ
whole_seconds t = t / 1_000_000 * 1_000_000

-- `_create_token` with its type and lifetime: the claims as the payload of the token has them. `jti`
-- is the text that `uuid4` made.
unfoldable pub create_access_token : Settings → ℕ → String → ℕ → Claims
create_access_token s now jti user_id = record {
  subject = some user_id;
  token_type = "access";
  jti = jti;
  exp = whole_seconds (now + s.access_token_expire_minutes * minute);
}

unfoldable pub create_refresh_token : Settings → ℕ → String → ℕ → Claims
create_refresh_token s now jti user_id = record {
  subject = some user_id;
  token_type = "refresh";
  jti = jti;
  exp = whole_seconds (now + s.refresh_token_expire_days * day);
}

-- `user_id` where the payload is of a token of the type, none where the route answers 401.
abbrev pub subject_of : String → Option Claims → Option ℕ
subject_of kind none = none
subject_of kind (some c) = if c.token_type =ₛ kind then c.subject else none

abbrev pub user_of : List User → Option ℕ → Option User
user_of us none = none
user_of us (some i) = active_user (find_user i us)

abbrev pub access_user : List User → Option Claims → Option User
access_user us c = user_of us (subject_of "access" c)

abbrev pub update_token : ℕ → (ApiToken → ApiToken) → List ApiToken → List ApiToken
update_token id f [] = []
update_token id f (r ∷ rs) = (if r.id == id then f r else r) ∷ update_token id f rs

-- `record.last_used_at = now`.
abbrev pub touch : ℕ → ℕ → List ApiToken → List ApiToken
touch now id rows = update_token id (λ r. record r { last_used_at = some now }) rows

-- `_authenticate_api_token`, once the token's user is looked up.
abbrev pub used_by : ℕ → ApiToken → List ApiToken → Option User → Option User × List ApiToken
used_by now r rows none = (none, rows)
used_by now r rows (some u) = (some u, touch now r.id rows)

abbrev pub token_user :
    ℕ → List User → List ApiToken → Option ApiToken → Option User × List ApiToken
token_user now us rows none = (none, rows)
token_user now us rows (some r) = used_by now r rows (active_user (find_user r.user_id us))

module _ (hash_token : String → String) (decode : String → Option Claims)
    (is_api_token : String → Bool) where
  -- `get_current_user`: the user, or none for status 401, and the rows of API tokens after it.
  unfoldable pub get_current_user :
      ℕ → Option String → List ApiToken → List User → Option User × List ApiToken
  get_current_user now none rows us = (none, rows)
  get_current_user now (some token) rows us =
      if is_api_token token
      then token_user now us rows (authenticate hash_token now token rows)
      else (access_user us (decode token), rows)

-- `require_roles`: none is the exception with status 403.
unfoldable pub require_roles : List String → User → Option User
require_roles roles u = if member_text u.role roles then some u else none

-- `get_user_by_username`: only an active user is found.
unfoldable pub get_user_by_username : String → List User → Option User
get_user_by_username name [] = none
get_user_by_username name (u ∷ us) =
    if (u.username =ₛ name) && u.is_active then some u else get_user_by_username name us

-- `bootstrap_admin`, with the hash of the configured password.
unfoldable pub bootstrap_admin : Settings → String → ℕ × List User → ℕ × List User
bootstrap_admin s password_hash (next, u ∷ us) = (next, u ∷ us)
bootstrap_admin s password_hash (next, []) = (
  suc next,
  record {
    id = next;
    username = s.admin_username;
    password_hash = password_hash;
    role = "admin";
    is_active = true;
    last_login_at = none;
  }
      ∷ [],
)
