-- ===== src/Api/Sound.antt =====
-- What the requests keep of the tables, and the handlers of backend/app/api/routes/auth.py.
pub mod Work
pub mod Others
pub mod Runs
pub mod Whole
use distributed_task_platfor.Prelude.{
  ℕ, String, ◌≡◌, refl, sym, Bool, true, false, not, Option, none, some, List, [], ◌=ₛ◌, inl, inr,
  Bool-cases, Option-cases, if◌then◌else◌,
}
use distributed_task_platfor.Model.Settings.{Settings}
use distributed_task_platfor.Model.Db.{Db}
use distributed_task_platfor.ApiTokens.{ApiToken}
use distributed_task_platfor.Auth.{User, RefreshToken, Claims, create_refresh_token}
use distributed_task_platfor.Audit.{Entry, add_audit}
use distributed_task_platfor.Invariant.Reach.{Step, Reach, empty_db}
use distributed_task_platfor.Api.{
  Site, Platform, Request, External, Body, Reply, Handler, entry, client_or_unknown,
}
use distributed_task_platfor.Api.Schemas.{RegisterRequest, ChangePasswordRequest}
use distributed_task_platfor.Api.Accounts.{
  username_taken, update_user, register_user, with_pair, give_pair, login_as, verified,
  login_result, seen, audit_login, refresh_as, refresh_stored, refresh_payload, refresh_with,
  refresh_tokens_with, logout_with, logout_handler, revoke_stored,
}
use distributed_task_platfor.Api.Users.{
  change_password_of, change_password_as, set_active_of, set_active_as, set_role_of, set_role_as,
  create_api_token_as, revoked_reply, revoke_api_token_as, change_user, log_user, with_hash,
  activated, with_role,
}
use distributed_task_platfor.Api.Names.{HasNames, HasNames-register, HasNames-update, KeepsName}
use distributed_task_platfor.Api.Keeps.{After}

-- The database is one that transactions of the platform lead to, and the users have unique names
-- and ids that the sequence gave out.
pub record IsSound (s : Settings) (site : Site) : Type 0 where
  pub reach : Reach s empty_db site.db
  pub names : HasNames site.next_user_id site.users

module _ (s : Settings) (x : External) where
  pub audited :
      (now : ℕ) (e : Entry) (db : Db) → Reach s empty_db db → Reach s empty_db (add_audit now e db)
  audited now e db h = Reach.next h (Step.audits now e refl)

  pub register-IsSound :
      (salt : String) (b : RegisterRequest) (req : Request) (site : Site)
      → IsSound s site
      → After (IsSound s) (register_user s x salt b req site)
  unfolding register_user
  register-IsSound salt b req site h = elim (Bool-cases (username_taken b.username site.users)) [
    | inl e ↦ rw e tt
    | inr e ↦ rw e (record {
      reach = audited req.now _ site.db h.reach;
      names = HasNames-register site.next_user_id site.users _ h.names refl e;
    })
  ]

  pair-IsSound :
      (status : ℕ) (req : Request) (access_jti : String) (u : User) (finish : Site → Site)
      (site : Site) (o : Option Claims)
      → ((rows : List RefreshToken) → IsSound s (finish (record site { refresh_tokens = rows })))
      → After (IsSound s) (with_pair s x status req access_jti u finish site o)
  pair-IsSound status req access_jti u finish site none h = tt
  pair-IsSound status req access_jti u finish site (some c) h = h _

  seen-keeps : (now : ℕ) → KeepsName (seen s x now)
  seen-keeps now = record { username = λ u. refl; id = λ u. refl }

  pub login-IsSound :
      (req : Request) (jti access_jti : String) (u : User) (site : Site)
      → IsSound s site
      → After (IsSound s) (login_as s x req jti access_jti u site)
  unfolding login_as give_pair audit_login
  login-IsSound req jti access_jti u site h =
      pair-IsSound 200 req access_jti (seen s x req.now u)
        (audit_login s x req (seen s x req.now u))
        (record site { users = update_user u.id (seen s x req.now) site.users })
        (x.decode req.now (x.encode (create_refresh_token s req.now jti u.id)))
        (λ rows. record {
          reach =
              audited req.now
                (entry (seen s x req.now u) "auth.login" "user" (some (x.str u.id))
                  (some (client_or_unknown req.client)))
                site.db h.reach;
          names =
              HasNames-update (seen s x req.now) u.id site.next_user_id site.users
                (seen-keeps req.now) h.names;
        })

  refresh_as-IsSound :
      (req : Request) (old jti access_jti : String) (site : Site) (o : Option User)
      → IsSound s site
      → After (IsSound s) (refresh_as s x req old jti access_jti site o)
  unfolding give_pair
  refresh_as-IsSound req old jti access_jti site none h = tt
  refresh_as-IsSound req old jti access_jti site (some u) h =
      pair-IsSound 200 req access_jti u (λ after. after) _ _
        (λ rows. record { reach = h.reach; names = h.names })

  refresh_stored-IsSound :
      (req : Request) (i : ℕ) (jti access_jti : String) (site : Site) (o : Option RefreshToken)
      → IsSound s site
      → After (IsSound s) (refresh_stored s x req i jti access_jti site o)
  refresh_stored-IsSound req i jti access_jti site none h = tt
  refresh_stored-IsSound req i jti access_jti site (some t) h =
      refresh_as-IsSound req t.jti jti access_jti site _ h

  refresh_with-IsSound :
      (req : Request) (jti access_jti : String) (site : Site) (o : Option (Claims × ℕ))
      → IsSound s site
      → After (IsSound s) (refresh_with s x req jti access_jti site o)
  refresh_with-IsSound req jti access_jti site none h = tt
  refresh_with-IsSound req jti access_jti site (some (c, i)) h =
      refresh_stored-IsSound req i jti access_jti site _ h

  pub refresh-IsSound :
      (token jti access_jti : String) (req : Request) (site : Site)
      → IsSound s site
      → After (IsSound s) (refresh_tokens_with s x token jti access_jti req site)
  unfolding refresh_tokens_with
  refresh-IsSound token jti access_jti req site h = refresh_with-IsSound req jti access_jti site _ h

  revoke_stored-IsSound :
      (now : ℕ) (site : Site) (o : Option RefreshToken)
      → IsSound s site
      → IsSound s (revoke_stored s x now site o)
  revoke_stored-IsSound now site none h = h
  revoke_stored-IsSound now site (some t) h = record { reach = h.reach; names = h.names }

  logout_with-IsSound :
      (req : Request) (site : Site) (o : Option Claims)
      → IsSound s site
      → After (IsSound s) (logout_with s x req site o)
  logout_with-IsSound req site none h = tt
  logout_with-IsSound req site (some c) h = elim (Bool-cases (c.token_type =ₛ "refresh")) [
    | inl e ↦ rw e (revoke_stored-IsSound req.now site _ h)
    | inr e ↦ rw e tt
  ]

  pub logout-IsSound :
      (token : String) (req : Request) (site : Site)
      → IsSound s site
      → After (IsSound s) (logout_handler s x token req site)
  unfolding logout_handler
  logout-IsSound token req site h = logout_with-IsSound req site (x.decode req.now token) h

  changed-IsSound :
      (req : Request) (revoke : Bool) (actor u : User) (f : User → User) (action : String) (i : ℕ)
      (site : Site)
      → KeepsName f
      → IsSound s site
      → IsSound s (log_user s x req actor action i (change_user s x req revoke u f site))
  changed-IsSound req revoke actor u f action i site k h = record {
    reach = audited req.now _ site.db h.reach;
    names = HasNames-update f u.id site.next_user_id site.users k h.names;
  }

  password-IsSound :
      (salt : String) (b : ChangePasswordRequest) (req : Request) (site : Site) (o : Option User)
      → IsSound s site
      → After (IsSound s) (change_password_of s x salt b req site o)
  password-IsSound salt b req site none h = tt
  password-IsSound salt b req site (some u) h =
      elim (Bool-cases (x.verify_password b.current_password u.password_hash)) [
        | inl e ↦ elim (Bool-cases (b.current_password =ₛ b.new_password)) [
          | inl f ↦ rw (e, f) tt
          | inr f ↦
              rw (e, f)
                (changed-IsSound req true _ u (with_hash s x (x.hash_password salt b.new_password))
                  _ u.id site (record { username = λ v. refl; id = λ v. refl }) h)
        ]
        | inr e ↦ rw e tt
      ]

  pub change_password-IsSound :
      (salt : String) (b : ChangePasswordRequest) (req : Request) (u : User) (site : Site)
      → IsSound s site
      → After (IsSound s) (change_password_as s x salt b req u site)
  unfolding change_password_as
  change_password-IsSound salt b req u site h = password-IsSound salt b req site _ h

  active_of-IsSound :
      (b : Bool) (req : Request) (admin : User) (site : Site) (o : Option User)
      → IsSound s site
      → After (IsSound s) (set_active_of s x b req admin site o)
  active_of-IsSound b req admin site none h = tt
  active_of-IsSound b req admin site (some u) h =
      changed-IsSound req (not b) admin u (activated s x b) _ u.id site
        (record { username = λ v. refl; id = λ v. refl }) h

  pub set_active-IsSound :
      (i : ℕ) (b : Bool) (req : Request) (u : User) (site : Site)
      → IsSound s site
      → After (IsSound s) (set_active_as s x i b req u site)
  unfolding set_active_as
  set_active-IsSound i b req u site h = active_of-IsSound b req u site _ h

  role_of-IsSound :
      (r : String) (req : Request) (admin : User) (site : Site) (o : Option User)
      → IsSound s site
      → After (IsSound s) (set_role_of s x r req admin site o)
  role_of-IsSound r req admin site none h = tt
  role_of-IsSound r req admin site (some u) h =
      changed-IsSound req false admin u (with_role s x r) _ u.id site
        (record { username = λ v. refl; id = λ v. refl }) h

  pub set_role-IsSound :
      (i : ℕ) (r : String) (req : Request) (u : User) (site : Site)
      → IsSound s site
      → After (IsSound s) (set_role_as s x i r req u site)
  unfolding set_role_as
  set_role-IsSound i r req u site h = role_of-IsSound r req u site _ h

  pub create_token-IsSound :
      (secret name : String) (req : Request) (u : User) (site : Site)
      → IsSound s site
      → After (IsSound s) (create_api_token_as s x secret name req u site)
  unfolding create_api_token_as
  create_token-IsSound secret name req u site h = record {
    reach = audited req.now _ site.db h.reach;
    names = h.names;
  }

  revoked-IsSound :
      (id : ℕ) (req : Request) (u : User) (site : Site) (r : List ApiToken × Bool)
      → IsSound s site
      → After (IsSound s) (revoked_reply s x id req u site r)
  revoked-IsSound id req u site (rows, false) h = tt
  revoked-IsSound id req u site (rows, true) h = record {
    reach = audited req.now _ site.db h.reach;
    names = h.names;
  }

  pub revoke_token-IsSound :
      (id : ℕ) (req : Request) (u : User) (site : Site)
      → IsSound s site
      → After (IsSound s) (revoke_api_token_as s x id req u site)
  unfolding revoke_api_token_as
  revoke_token-IsSound id req u site h = revoked-IsSound id req u site _ h
