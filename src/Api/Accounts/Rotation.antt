-- ===== src/Api/Accounts/Rotation.antt =====
-- The rotation of refresh tokens, `refresh` of backend/app/api/routes/auth.py.
use distributed_task_platfor.Prelude.{ℕ, String, ◌≡◌, true, none, some, ◌=ₛ◌}
use distributed_task_platfor.Model.Settings.{Settings}
use distributed_task_platfor.Auth.{
  User, RefreshToken, Claims, find_user, active_user, create_refresh_token, persist_refresh_token,
  refresh_is_valid, revoke_refresh,
}
use distributed_task_platfor.Api.{Site, Request, External}

-- Every row that the two steps write: the old token is revoked, the new one is added.
module _ (s : Settings) (x : External) where
  abbrev pair : ℕ → String → User → Claims
  pair now jti u = create_refresh_token s now jti u.id

  abbrev rotated : Request → String → String → User → Site → Site
  rotated req old jti u site = record site {
    refresh_tokens =
        persist_refresh_token u.id (pair req.now jti u).jti (pair req.now jti u).exp
          (revoke_refresh req.now old site.refresh_tokens);
  }

  -- What makes a refresh token valid at a request: its payload, its row and its user.
  pub record IsExchangeable (token : String) (now : ℕ) (site : Site) (c : Claims) (u : User)
      : Type 0 where
    pub user_id : ℕ
    pub stored : RefreshToken
    pub decoded : x.decode now token ≡ some c
    pub kind : (c.token_type =ₛ "refresh") ≡ true
    pub subject : c.subject ≡ some user_id
    pub valid : refresh_is_valid now c.jti site.refresh_tokens ≡ some stored
    pub active : active_user (find_user user_id site.users) ≡ some u

  module _ (token jti : String) (req : Request) (site : Site) (c : Claims) (u : User)
      (e : IsExchangeable token req.now site c u) where
    abbrev after : Site
    after = rotated req e.stored.jti jti u site

    abbrev new_row : RefreshToken
    new_row = record {
      user_id = u.id;
      jti = (pair req.now jti u).jti;
      expires_at = (pair req.now jti u).exp;
      revoked_at = none;
    }
