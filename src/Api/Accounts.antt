-- ===== src/Api/Accounts.antt =====
-- backend/app/api/routes/auth.py: registration, login, the refresh of tokens and the logout.
pub mod Rotation
use distributed_task_platfor.Prelude.{
  ℕ, suc, String, Bool, true, false, not, ◌&&◌, ◌||◌, Option, none, some, List, [], ◌∷◌, ◌++◌, ◌==◌,
  ◌=ₛ◌, leb, text_length, if◌then◌else◌,
}
use distributed_task_platfor.Model.Settings.{Settings}
use distributed_task_platfor.Auth.{
  User, RefreshToken, Claims, find_user, active_user, get_user_by_username, create_access_token,
  create_refresh_token, persist_refresh_token, refresh_is_valid, revoke_refresh,
}
use distributed_task_platfor.Audit.{add_audit}
use distributed_task_platfor.RateLimit.{
  login_failure_limiter, record_login_failure, clear_login_failures,
}
use distributed_task_platfor.Api.{
  Site, Memory, Platform, Request, External, Body, no_content, user_out, token_response, Reply,
  answer, http_error, Handler, commit, entry, client_or_unknown,
}
use distributed_task_platfor.Api.Access.{limited, with_site}
use distributed_task_platfor.Api.Schemas.{RegisterRequest, valid_registration}

abbrev pub username_taken : String → List User → Bool
username_taken name [] = false
username_taken name (u ∷ us) = (u.username =ₛ name) || username_taken name us

abbrev pub update_user : ℕ → (User → User) → List User → List User
update_user i f [] = []
update_user i f (u ∷ us) = (if u.id == i then f u else u) ∷ update_user i f us

module _ (s : Settings) (x : External) where
  abbrev pub new_user : String → RegisterRequest → ℕ → User
  new_user salt b id = record {
    id = id;
    username = b.username;
    password_hash = x.hash_password salt b.password;
    role = "viewer";
    is_active = true;
    last_login_at = none;
  }

  unfoldable pub register_user : String → RegisterRequest → Request → Handler
  register_user salt b req site =
      if username_taken b.username site.users
      then http_error 409
      else let u = new_user salt b site.next_user_id in
        answer 201 (
          record site {
            db =
                add_audit req.now (entry u "user.register" "user" (some (x.str u.id)) req.client)
                  site.db;
            users = site.users ++ u ∷ [];
            next_user_id = suc site.next_user_id;
          },
          user_out u,
        )

  unfoldable pub register : String → RegisterRequest → Request → Platform → Platform × Reply Body
  register salt b req p = limited s x (valid_registration b) (register_user salt b req) req p

  -- The pair of tokens that `login` and `refresh` give: the refresh token is decoded again for its
  -- row. `jti` and `access_jti` are what `uuid4` made.
  abbrev pub with_pair :
      ℕ → Request → String → User → (Site → Site) → Site → Option Claims → Reply (Site × Body)
  with_pair status req access_jti u finish site none = http_error 500
  with_pair status req access_jti u finish site (some c) = answer status (
    finish (record site {
      refresh_tokens = persist_refresh_token u.id c.jti c.exp site.refresh_tokens;
    }),
    token_response (x.encode (create_access_token s req.now access_jti u.id)) (x.encode c) u,
  )

  unfoldable pub give_pair :
      Request → String → String → User → (Site → Site) → Site → Reply (Site × Body)
  give_pair req jti access_jti u finish site =
      with_pair 200 req access_jti u finish site
        (x.decode req.now (x.encode (create_refresh_token s req.now jti u.id)))

  unfoldable pub audit_login : Request → User → Site → Site
  audit_login req u site = record site {
    db =
        add_audit req.now
          (entry u "auth.login" "user" (some (x.str u.id)) (some (client_or_unknown req.client)))
          site.db;
  }

  abbrev pub seen : ℕ → User → User
  seen now u = record u { last_login_at = some now }

  unfoldable pub login_as : Request → String → String → User → Handler
  login_as req jti access_jti u site =
      give_pair req jti access_jti (seen req.now u) (audit_login req (seen req.now u))
        (record site { users = update_user u.id (seen req.now) site.users })

  -- The user whose password it is.
  abbrev pub verified : String → Option User → Option User
  verified password none = none
  verified password (some u) = if x.verify_password password u.password_hash then some u else none

  abbrev pub login_result :
      Request → String → String → Platform → Option User → Platform × Reply Body
  login_result req jti access_jti p none = (
    record p {
      memory = record p.memory {
        login_failures =
            record_login_failure s req.now (client_or_unknown req.client) p.memory.login_failures;
      };
    },
    http_error 401,
  )
  login_result req jti access_jti p (some u) =
      with_site s x
        (record p.memory {
          login_failures =
              clear_login_failures (client_or_unknown req.client) p.memory.login_failures;
        })
        (commit p.site (login_as req jti access_jti u p.site))

  unfoldable pub login :
      String → String → String → String → Request → Platform → Platform × Reply Body
  login username password jti access_jti req p =
      if login_failure_limiter s req.now (client_or_unknown req.client) p.memory.login_failures
      then login_result req jti access_jti p
          (verified password (get_user_by_username username p.site.users))
      else (p, http_error 429)

  abbrev pub refresh_as :
      Request → String → String → String → Site → Option User → Reply (Site × Body)
  refresh_as req old jti access_jti site none = http_error 401
  refresh_as req old jti access_jti site (some u) =
      give_pair req jti access_jti u (λ after. after)
        (record site { refresh_tokens = revoke_refresh req.now old site.refresh_tokens })

  abbrev pub refresh_stored :
      Request → ℕ → String → String → Site → Option RefreshToken → Reply (Site × Body)
  refresh_stored req user_id jti access_jti site none = http_error 401
  refresh_stored req user_id jti access_jti site (some stored) =
      refresh_as req stored.jti jti access_jti site (active_user (find_user user_id site.users))

  abbrev pub with_subject : Claims → Option ℕ → Option (Claims × ℕ)
  with_subject c none = none
  with_subject c (some user_id) = some (c, user_id)

  -- The payload of a refresh token, with its `sub`; anything else is the exception with status 401.
  abbrev pub refresh_payload : Option Claims → Option (Claims × ℕ)
  refresh_payload none = none
  refresh_payload (some c) = if c.token_type =ₛ "refresh" then with_subject c c.subject else none

  abbrev pub refresh_with :
      Request → String → String → Site → Option (Claims × ℕ) → Reply (Site × Body)
  refresh_with req jti access_jti site none = http_error 401
  refresh_with req jti access_jti site (some (c, user_id)) =
      refresh_stored req user_id jti access_jti site
        (refresh_is_valid req.now c.jti site.refresh_tokens)

  unfoldable pub refresh_tokens_with : String → String → String → Request → Handler
  refresh_tokens_with token jti access_jti req site =
      refresh_with req jti access_jti site (refresh_payload (x.decode req.now token))

  unfoldable pub refresh : String → String → String → Request → Platform → Platform × Reply Body
  refresh token jti access_jti req p =
      limited s x true (refresh_tokens_with token jti access_jti req) req p

  abbrev pub revoke_stored : ℕ → Site → Option RefreshToken → Site
  revoke_stored now site none = site
  revoke_stored now site (some stored) = record site {
    refresh_tokens = revoke_refresh now stored.jti site.refresh_tokens;
  }

  abbrev pub logout_with : Request → Site → Option Claims → Reply (Site × Body)
  logout_with req site none = http_error 401
  logout_with req site (some c) =
      if c.token_type =ₛ "refresh"
      then answer 204 (
        revoke_stored req.now site (refresh_is_valid req.now c.jti site.refresh_tokens),
        no_content,
      )
      else http_error 401

  unfoldable pub logout_handler : String → Request → Handler
  logout_handler token req site = logout_with req site (x.decode req.now token)

  unfoldable pub logout : String → Request → Platform → Platform × Reply Body
  logout token req p = limited s x true (logout_handler token req) req p
