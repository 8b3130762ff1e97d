-- ===== src/Api/Reports.antt =====
-- backend/app/api/routes/audit.py, workers.py, stats.py and ws.py: the routes that only read, and the
-- opening of the stream of events.
use mathlib.Core.List.{reverse}
use distributed_task_platfor.Prelude.{
  ℕ, String, Bool, true, Option, none, some, List, order_by, if◌then◌else◌,
}
use distributed_task_platfor.Model.Rows.{Worker}
use distributed_task_platfor.Model.Settings.{Settings}
use distributed_task_platfor.Model.Db.{Db}
use distributed_task_platfor.Auth.{User, access_user}
use distributed_task_platfor.Audit.{AuditFilters, list_audit, count_audit}
use distributed_task_platfor.Stats.{build_stats}
use distributed_task_platfor.RateLimit.Registry.{Registry, ws_allowed}
use distributed_task_platfor.Api.{
  Site, Platform, Request, External, Body, audit_list, worker_list, stats_out, Reply, answer,
}
use distributed_task_platfor.Api.Access.{admins, authorized}
use distributed_task_platfor.Api.Schemas.{valid_limit}

-- `list_workers` of backend/app/services/workers.py, for heartbeats at different times.
unfoldable pub list_workers : Db → List Worker
list_workers db = reverse (order_by (λ w. w.last_heartbeat_at) db.workers)

-- A socket is closed with a code, or gets the stream.
pub data Socket : Type 0 where
  closed : ℕ → Socket
  streaming : Socket

module _ (s : Settings) (x : External) where
  unfoldable pub list_audit_route : AuditFilters → ℕ → ℕ → Request → Site → Site × Reply Body
  list_audit_route f limit offset req site =
      authorized s x admins (valid_limit limit)
        (λ u after. answer 200 (
          after,
          audit_list (count_audit x.ilike f after.db) (list_audit x.ilike f limit offset after.db),
        ))
        req site

  unfoldable pub list_workers_route : Request → Site → Site × Reply Body
  list_workers_route req site =
      authorized s x none true (λ u after. answer 200 (after, worker_list (list_workers after.db)))
        req site

  -- `depth` is what the broker says of its queue.
  unfoldable pub get_stats_route : Option ℕ → Request → Site → Site × Reply Body
  get_stats_route depth req site =
      authorized s x none true
        (λ u after. answer 200 (after, stats_out (build_stats after.db) depth)) req site

  -- `_authenticate_ws`: only access tokens open a socket.
  unfoldable pub authenticate_ws : ℕ → String → Site → Option User
  authenticate_ws now token site = access_user site.users (x.decode now token)

  abbrev pub opened : Platform → Registry × Bool → Platform × Socket
  opened p (r, b) =
      (record p { memory = record p.memory { limiters = r } }, if b then streaming else closed 4429)

  abbrev pub open_for : ℕ → Option Bool → Platform → Option User → Platform × Socket
  open_for now redis p none = (p, closed 4401)
  open_for now redis p (some u) = opened p (ws_allowed s now (x.str u.id) redis p.memory.limiters)

  -- `ws_events` until the first frame.
  unfoldable pub ws_events : ℕ → Option Bool → String → Platform → Platform × Socket
  ws_events now redis token p = open_for now redis p (authenticate_ws now token p.site)
