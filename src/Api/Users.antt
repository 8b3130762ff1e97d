-- ===== src/Api/Users.antt =====
-- backend/app/api/routes/auth.py: the user itself, the change of its password, the routes by which
-- admins change users, and the API tokens of a user.
pub mod Lockout
pub mod Issue
use distributed_task_platfor.Prelude.{
  ℕ, String, Bool, true, false, not, ◌&&◌, ◌||◌, Option, none, some, List, [], ◌∷◌, ◌==◌, ◌=ₛ◌,
  contains_text, if◌then◌else◌,
}
use distributed_task_platfor.Model.Settings.{Settings}
use distributed_task_platfor.ApiTokens.{
  ApiToken, ApiTokens, create_token, generate_token, list_tokens, revoke_token,
}
use distributed_task_platfor.Auth.{User, find_user, active_user, revoke_all_refresh_tokens}
use distributed_task_platfor.Audit.{add_audit}
use distributed_task_platfor.Api.{
  Site, Request, External, Body, no_content, user_out, token_created, token_list, Reply, answer,
  http_error, Handler, entry,
}
use distributed_task_platfor.Api.Access.{authorized, admins, with_tokens}
use distributed_task_platfor.Api.Schemas.{
  ChangePasswordRequest, valid_change, valid_role, length_between,
}
use distributed_task_platfor.Api.Accounts.{update_user}

module _ (s : Settings) (x : External) where
  unfoldable pub me : Request → Site → Site × Reply Body
  me req site = authorized s x none true (λ u after. answer 200 (after, user_out u)) req site

  -- The users and their tokens after a change of one user, whose refresh tokens are all revoked
  -- where `revoke` says so.
  abbrev pub change_user : Request → Bool → User → (User → User) → Site → Site
  change_user req revoke u f site = record site {
    users = update_user u.id f site.users;
    refresh_tokens =
        if revoke
        then (revoke_all_refresh_tokens req.now u.id site.refresh_tokens).0
        else site.refresh_tokens;
  }

  abbrev pub log_user : Request → User → String → ℕ → Site → Site
  log_user req actor action id site = record site {
    db = add_audit req.now (entry actor action "user" (some (x.str id)) req.client) site.db;
  }

  abbrev pub with_hash : String → User → User
  with_hash h u = record u { password_hash = h }

  abbrev pub change_password_of :
      String → ChangePasswordRequest → Request → Site → Option User → Reply (Site × Body)
  change_password_of salt b req site none = http_error 401
  change_password_of salt b req site (some u) =
      if not (x.verify_password b.current_password u.password_hash)
      then http_error 400
      else if b.current_password =ₛ b.new_password
      then http_error 400
      else let v = with_hash (x.hash_password salt b.new_password) u in
        answer 200 (
          log_user req v "user.change_password" u.id
              (change_user req true u (with_hash (x.hash_password salt b.new_password)) site),
          user_out v,
        )

  unfoldable pub change_password_as : String → ChangePasswordRequest → Request → User → Handler
  change_password_as salt b req current site =
      change_password_of salt b req site (active_user (find_user current.id site.users))

  unfoldable pub change_password :
      String → ChangePasswordRequest → Request → Site → Site × Reply Body
  change_password salt b req site =
      authorized s x none (valid_change b) (change_password_as salt b req) req site

  abbrev pub activated : Bool → User → User
  activated b u = record u { is_active = b }

  abbrev pub set_active_of : Bool → Request → User → Site → Option User → Reply (Site × Body)
  set_active_of b req admin site none = http_error 404
  set_active_of b req admin site (some target) = answer 200 (
    log_user req admin "user.set_active" target.id
        (change_user req (not b) target (activated b) site),
    user_out (activated b target),
  )

  unfoldable pub set_active_as : ℕ → Bool → Request → User → Handler
  set_active_as user_id b req admin site =
      set_active_of b req admin site (find_user user_id site.users)

  unfoldable pub set_active : ℕ → Bool → Request → Site → Site × Reply Body
  set_active user_id b req site = authorized s x admins true (set_active_as user_id b req) req site

  abbrev pub with_role : String → User → User
  with_role r u = record u { role = r }

  abbrev pub set_role_of : String → Request → User → Site → Option User → Reply (Site × Body)
  set_role_of r req admin site none = http_error 404
  set_role_of r req admin site (some target) = answer 200 (
    log_user req admin "user.role_change" target.id
        (change_user req false target (with_role r) site),
    user_out (with_role r target),
  )

  unfoldable pub set_role_as : ℕ → String → Request → User → Handler
  set_role_as user_id r req admin site = set_role_of r req admin site (find_user user_id site.users)

  unfoldable pub set_role : ℕ → String → Request → Site → Site × Reply Body
  set_role user_id r req site =
      authorized s x admins (valid_role r) (set_role_as user_id r req) req site

  abbrev pub log_token : Request → User → String → ℕ → Site → Site
  log_token req actor action id site = record site {
    db = add_audit req.now (entry actor action "api_token" (some (x.str id)) req.client) site.db;
  }

  -- The row that `create_token` adds is the last one.
  abbrev pub last_token : List ApiToken → Option ApiToken
  last_token [] = none
  last_token (r ∷ []) = some r
  last_token (r ∷ q ∷ rs) = last_token (q ∷ rs)

  abbrev pub token_body : String → Option ApiToken → Body
  token_body token none = no_content
  token_body token (some r) = token_created token r

  -- `secret` is what `secrets.token_hex(32)` gave; the route passes no lifetime.
  unfoldable pub create_api_token_as : String → String → Request → User → Handler
  create_api_token_as secret name req current site =
      let token = generate_token s secret in
      let ts = create_token x.hash_token s req.now current.id name none token site.api_tokens in
      answer 201 (
        log_token req current "api_token.create" site.api_tokens.next_id
            (record site { api_tokens = ts }),
        token_body token (last_token ts.rows),
      )

  unfoldable pub create_api_token : String → String → Request → Site → Site × Reply Body
  create_api_token secret name req site =
      authorized s x none (length_between 1 100 name) (create_api_token_as secret name req) req site

  unfoldable pub list_api_tokens : Request → Site → Site × Reply Body
  list_api_tokens req site =
      authorized s x none true
        (λ u after.
          answer 200 (after, token_list (list_tokens (some u.id) 500 0 after.api_tokens.rows)))
        req site

  abbrev pub revoked_reply : ℕ → Request → User → Site → List ApiToken × Bool → Reply (Site × Body)
  revoked_reply id req current site (rows, false) = http_error 404
  revoked_reply id req current site (rows, true) =
      answer 204 (log_token req current "api_token.revoke" id (with_tokens site rows), no_content)

  unfoldable pub revoke_api_token_as : ℕ → Request → User → Handler
  revoke_api_token_as id req current site =
      revoked_reply id req current site
        (revoke_token req.now id current.id (current.role =ₛ "admin") site.api_tokens.rows)

  unfoldable pub revoke_api_token : ℕ → Request → Site → Site × Reply Body
  revoke_api_token id req site = authorized s x none true (revoke_api_token_as id req) req site
