-- ===== src/Api/Access.antt =====
-- The dependencies of the routes: `get_current_user`, `require_roles` and the limiters of
-- backend/app/services/auth.py, in the order in which a request meets them.
use distributed_task_platfor.Prelude.{
  String, Bool, Option, none, some, List, [], ◌∷◌, if◌then◌else◌,
}
use distributed_task_platfor.Model.Settings.{Settings}
use distributed_task_platfor.ApiTokens.{ApiToken, is_api_token}
use distributed_task_platfor.Auth.{User, get_current_user, require_roles}
use distributed_task_platfor.RateLimit.{Hits, auth_rate_limiter}
use distributed_task_platfor.Api.{
  Site, Memory, Platform, Request, External, Body, Reply, http_error, Handler, commit,
  client_or_unknown,
}

-- A route's roles: none where any user that is logged in may call it.
abbrev pub Roles : Type 0
Roles = Option (List String)

abbrev pub admins : Roles
admins = some ("admin" ∷ [])

abbrev pub operators : Roles
operators = some ("operator" ∷ "admin" ∷ [])

abbrev pub with_tokens : Site → List ApiToken → Site
with_tokens site rows = record site { api_tokens = record site.api_tokens { rows = rows } }

abbrev pub permitted : Roles → User → Option User
permitted none u = some u
permitted (some roles) u = require_roles roles u

module _ (s : Settings) (x : External) where
  -- The user, and the tables after the session of its own that this dependency has.
  unfoldable pub current_user : Request → Site → Option User × Site
  current_user req site =
      let (u, rows) =
        get_current_user x.hash_token (x.decode req.now) (is_api_token s) req.now req.credentials
          site.api_tokens.rows site.users in
      (u, with_tokens site rows)

  abbrev pub if_permitted : Bool → (User → Handler) → Site → Option User → Site × Reply Body
  if_permitted valid handler site none = (site, http_error 403)
  if_permitted valid handler site (some u) =
      if valid then commit site (handler u site) else (site, http_error 422)

  abbrev pub admit : Roles → Bool → (User → Handler) → Option User × Site → Site × Reply Body
  admit roles valid handler (none, site) = (site, http_error 401)
  admit roles valid handler (some u, site) = if_permitted valid handler site (permitted roles u)

  -- A route for users that are logged in, and have one of the roles; `valid` says whether the body
  -- passes its schema.
  unfoldable pub authorized : Roles → Bool → (User → Handler) → Request → Site → Site × Reply Body
  authorized roles valid handler req site = admit roles valid handler (current_user req site)

  abbrev pub with_site : Memory → Site × Reply Body → Platform × Reply Body
  with_site memory (site, r) = (record { site = site; memory = memory }, r)

  abbrev pub if_allowed : Bool → Handler → Platform → Option Hits → Platform × Reply Body
  if_allowed valid handler p none = (p, http_error 429)
  if_allowed valid handler p (some hits) =
      with_site (record p.memory { login_window = hits })
        (if valid then commit p.site (handler p.site) else (p.site, http_error 422))

  -- A route under `auth_rate_limiter`, which counts every request that it lets through.
  unfoldable pub limited : Bool → Handler → Request → Platform → Platform × Reply Body
  limited valid handler req p =
      if_allowed valid handler p
        (auth_rate_limiter s req.now (client_or_unknown req.client) p.memory.login_window)
