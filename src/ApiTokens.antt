-- ===== src/ApiTokens.antt =====
-- backend/app/services/api_tokens.py and models/api_token.py: permanent tokens for programs. The hash
-- of a token is a parameter.
pub mod Revocation
use distributed_task_platfor.Prelude.{
  ℕ, suc, ◌+◌, ◌*◌, String, Bool, true, false, not, ◌&&◌, ◌||◌, Option, none, some, List, [], ◌∷◌,
  ◌++◌, ◌==◌, ◌=ₛ◌, leb, ltb, is_none, is_some, count, select, take, drop, order_by, starts_with,
  join, if◌then◌else◌,
}
use distributed_task_platfor.Model.Settings.{Settings}
use distributed_task_platfor.Model.Query.{page}
use distributed_task_platfor.Scheduler.{day}

pub record ApiToken : Type 0 where
  pub id : ℕ
  pub name : String
  pub user_id : ℕ
  pub token_hash : String
  pub last_used_at : Option ℕ
  pub expires_at : Option ℕ
  pub revoked_at : Option ℕ
  pub is_active : Bool

pub record ApiTokens : Type 0 where
  pub rows : List ApiToken
  pub next_id : ℕ

-- The two tests on `ttl_days` and the setting.
unfoldable pub expiry : Settings → ℕ → Option ℕ → Option ℕ
expiry s now ttl =
    let chosen : ℕ = elim ttl [ none ↦ 0 | some n ↦ n ] in
    if ltb 0 chosen
    then some (now + chosen * day)
    else if ltb 0 s.api_token_expire_days
    then some (now + s.api_token_expire_days * day)
    else none

abbrev pub expired : ℕ → Option ℕ → Bool
expired now none = false
expired now (some at) = leb at now

abbrev pub authentic : ℕ → Option ApiToken → Option ApiToken
authentic now none = none
authentic now (some r) =
    if is_some r.revoked_at
    then none
    else if not r.is_active
    then none
    else if expired now r.expires_at
    then none
    else some r

module _ (hash_token : String → String) where
  -- `token` is the text that `generate_token` made; only its hash is stored.
  unfoldable pub create_token :
      Settings → ℕ → ℕ → String → Option ℕ → String → ApiTokens → ApiTokens
  create_token s now user_id name ttl token db = record {
    rows =
        db.rows
        ++ record {
          id = db.next_id;
          name = name;
          user_id = user_id;
          token_hash = hash_token token;
          last_used_at = none;
          expires_at = expiry s now ttl;
          revoked_at = none;
          is_active = true;
        }
          ∷ [];
    next_id = suc db.next_id;
  }

  unfoldable pub find_hash : String → List ApiToken → Option ApiToken
  find_hash token [] = none
  find_hash token (r ∷ rs) = if r.token_hash =ₛ hash_token token then some r else find_hash token rs

  unfoldable pub authenticate : ℕ → String → List ApiToken → Option ApiToken
  authenticate now token rows = authentic now (find_hash token rows)

-- The row that `revoke_token` finds: the owner's, or any for an admin.
abbrev pub may_revoke : ℕ → ℕ → Bool → ApiToken → Bool
may_revoke id user_id admin r = (r.id == id) && (admin || (r.user_id == user_id))

unfoldable pub revoke_token_rows : ℕ → ℕ → ℕ → Bool → List ApiToken → List ApiToken
revoke_token_rows now id user_id admin [] = []
revoke_token_rows now id user_id admin (r ∷ rs) =
    (if may_revoke id user_id admin r && is_none r.revoked_at
      then record r { revoked_at = some now }
      else r)
    ∷ revoke_token_rows now id user_id admin rs

unfoldable pub revoke_token : ℕ → ℕ → ℕ → Bool → List ApiToken → List ApiToken × Bool
revoke_token now id user_id admin rows =
    (revoke_token_rows now id user_id admin rows, ltb 0 (count (may_revoke id user_id admin) rows))

abbrev pub owned : Option ℕ → ApiToken → Bool
owned none r = true
owned (some u) r = r.user_id == u

-- `order_by(ApiToken.id.desc()).limit(limit).offset(offset)`.
unfoldable pub list_tokens : Option ℕ → ℕ → ℕ → List ApiToken → List ApiToken
list_tokens user_id limit offset rows = page (λ r. r.id) limit offset (select (owned user_id) rows)

unfoldable pub count_tokens : Option ℕ → List ApiToken → ℕ
count_tokens user_id rows = count (owned user_id) rows

-- `secret` is what `secrets.token_hex(32)` gave.
unfoldable pub generate_token : Settings → String → String
generate_token s secret = join s.api_token_prefix secret

unfoldable pub is_api_token : Settings → String → Bool
is_api_token s token = starts_with token s.api_token_prefix
