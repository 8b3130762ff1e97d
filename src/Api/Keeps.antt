-- ===== src/Api/Keeps.antt =====
-- What a request keeps: a property of the tables that every handler keeps, and that does not depend
-- on the API tokens, is kept by the route, whatever its answer.
use distributed_task_platfor.Prelude.{Bool, true, false, Option, none, some, List, if◌then◌else◌}
use distributed_task_platfor.Model.Settings.{Settings}
use distributed_task_platfor.ApiTokens.{ApiToken}
use distributed_task_platfor.Auth.{User}
use distributed_task_platfor.RateLimit.{Hits}
use distributed_task_platfor.RateLimit.Registry.{Registry}
use distributed_task_platfor.Api.{
  Site, Memory, Platform, Request, External, Body, Reply, answer, http_error, Handler, commit,
}
use distributed_task_platfor.Api.Access.{
  Roles, with_tokens, permitted, current_user, if_permitted, admit, authorized, if_allowed, limited,
}
use distributed_task_platfor.Api.Tasks.{if_room, if_operator, admit_creator, creating}

-- What holds of the tables that a handler leaves for the commit.
abbrev pub After : (Site → Type 0) → Reply (Site × Body) → Type 0
After P (answer status (site, body)) = P site
After P (http_error status) = Unit

module _ (s : Settings) (x : External) (P : Site → Type 0) where
  pub commit-keeps :
      (site : Site) (r : Reply (Site × Body)) → P site → After P r → P (commit site r).0
  commit-keeps site (answer status (site', body)) h k = k
  commit-keeps site (http_error status) h k = h

  pub if-keeps :
      (valid : Bool) (handler : Handler) (site : Site)
      → P site
      → After P (handler site)
      → P (if valid then commit site (handler site) else (site, http_error 422)).0
  if-keeps true handler site h k = commit-keeps site (handler site) h k
  if-keeps false handler site h k = h

  abbrev pub Kept : (User → Handler) → Type 0
  Kept handler = (u : User) (site : Site) → P site → After P (handler u site)

  permitted-keeps :
      (valid : Bool) (handler : User → Handler) (site : Site) (o : Option User)
      → Kept handler
      → P site
      → P (if_permitted s x valid handler site o).0
  permitted-keeps valid handler site none k h = h
  permitted-keeps valid handler site (some u) k h = if-keeps valid (handler u) site h (k u site h)

  admit-keeps :
      (roles : Roles) (valid : Bool) (handler : User → Handler) (site : Site) (o : Option User)
      → Kept handler
      → P site
      → P (admit s x roles valid handler (o, site)).0
  admit-keeps roles valid handler site none k h = h
  admit-keeps roles valid handler site (some u) k h =
      permitted-keeps valid handler site (permitted roles u) k h

  -- `P` does not look at the rows of API tokens, which the dependency writes.
  abbrev pub IsFree : Type 0
  IsFree = (site : Site) (rows : List ApiToken) → P site → P (with_tokens site rows)

  pub authorized-keeps :
      (roles : Roles) (valid : Bool) (handler : User → Handler) (req : Request) (site : Site)
      → IsFree
      → Kept handler
      → P site
      → P (authorized s x roles valid handler req site).0
  unfolding authorized current_user
  authorized-keeps roles valid handler req site free k h =
      admit-keeps roles valid handler _ _ k (free site _ h)

  allowed-keeps :
      (valid : Bool) (handler : Handler) (p : Platform) (o : Option Hits)
      → ((site : Site) → P site → After P (handler site))
      → P p.site
      → P (if_allowed s x valid handler p o).0.site
  allowed-keeps valid handler p none k h = h
  allowed-keeps valid handler p (some hits) k h = if-keeps valid handler p.site h (k p.site h)

  pub limited-keeps :
      (valid : Bool) (handler : Handler) (req : Request) (p : Platform)
      → ((site : Site) → P site → After P (handler site))
      → P p.site
      → P (limited s x valid handler req p).0.site
  unfolding limited
  limited-keeps valid handler req p k h = allowed-keeps valid handler p _ k h

  room-keeps :
      (handler : Handler) (p : Platform) (r : Registry × Bool)
      → P p.site
      → After P (handler p.site)
      → P (if_room s x handler p r).0.site
  room-keeps handler p (r, false) h k = h
  room-keeps handler p (r, true) h k = commit-keeps p.site (handler p.site) h k

  operator-keeps :
      (valid : Bool) (handler : User → Handler) (req : Request) (p : Platform) (o : Option User)
      → Kept handler
      → P p.site
      → P (if_operator s x valid handler req p o).0.site
  operator-keeps valid handler req p none k h = h
  operator-keeps false handler req p (some u) k h = h
  operator-keeps true handler req p (some u) k h = room-keeps (handler u) p _ h (k u p.site h)

  creator-keeps :
      (valid : Bool) (handler : User → Handler) (req : Request) (m : Memory) (o : Option User)
      (site : Site)
      → Kept handler
      → P site
      → P (admit_creator s x valid handler req m (o, site)).0.site
  creator-keeps valid handler req m none site k h = h
  creator-keeps valid handler req m (some u) site k h =
      operator-keeps valid handler req (record { site = site; memory = m }) _ k h

  pub creating-keeps :
      (valid : Bool) (handler : User → Handler) (req : Request) (p : Platform)
      → IsFree
      → Kept handler
      → P p.site
      → P (creating s x valid handler req p).0.site
  unfolding creating current_user
  creating-keeps valid handler req p free k h =
      creator-keeps valid handler req p.memory _ _ k (free p.site _ h)
