-- ===== src/Api/Tasks.antt =====
-- backend/app/api/routes/tasks.py: one task at a time. `depth` bounds the calls of `set_status`.
pub mod Creating
pub mod Once
pub mod Answers
use distributed_task_platfor.Prelude.{
  ℕ, String, Bool, true, false, ◌&&◌, Option, none, some, List, [], ◌∷◌, if◌then◌else◌,
}
use distributed_task_platfor.Model.Rows.{Task, TaskEvent}
use distributed_task_platfor.Model.Settings.{Settings}
use distributed_task_platfor.Model.Db.{Db, get_task}
use distributed_task_platfor.Model.Result.{Result, ok, err, Error, integrity, task_conflict}
use distributed_task_platfor.Auth.{User}
use distributed_task_platfor.Audit.{add_audit}
use distributed_task_platfor.Tasks.{create_task, manual_retry, cancel_task}
use distributed_task_platfor.Tasks.Listing.{
  Filters, list_tasks, count_tasks, get_by_idempotency_key, get_events, attempts_of,
}
use distributed_task_platfor.RateLimit.Registry.{Registry, task_create_allowed}
use distributed_task_platfor.Api.{
  Site, Memory, Platform, Request, External, Body, no_content, task_info, task_list, task_detail,
  timeline, Reply, answer, http_error, Handler, commit, entry, client_or_unknown,
}
use distributed_task_platfor.Api.Access.{
  Roles, operators, permitted, current_user, authorized, with_site,
}
use distributed_task_platfor.Api.Schemas.{TaskCreate, valid_task, spec_of, valid_limit}

abbrev pub task_body : Option Task → Body
task_body none = no_content
task_body (some t) = task_info t

module _ (s : Settings) (x : External) where
  -- `task_create_allowed`, at the start of the two routes that create tasks.
  abbrev pub if_room : Handler → Platform → Registry × Bool → Platform × Reply Body
  if_room handler p (r, false) =
      (record p { memory = record p.memory { limiters = r } }, http_error 429)
  if_room handler p (r, true) =
      with_site s x (record p.memory { limiters = r }) (commit p.site (handler p.site))

  abbrev pub if_operator :
      Bool → (User → Handler) → Request → Platform → Option User → Platform × Reply Body
  if_operator valid handler req p none = (p, http_error 403)
  if_operator valid handler req p (some u) =
      if valid
      then if_room (handler u) p (
          task_create_allowed s req.now (client_or_unknown req.client) req.redis_answer
            p.memory.limiters)
      else (p, http_error 422)

  abbrev pub admit_creator :
      Bool → (User → Handler) → Request → Memory → Option User × Site → Platform × Reply Body
  admit_creator valid handler req m (none, site) =
      (record { site = site; memory = m }, http_error 401)
  admit_creator valid handler req m (some u, site) =
      if_operator valid handler req (record { site = site; memory = m }) (permitted operators u)

  -- A route for operators that creates tasks.
  unfoldable pub creating : Bool → (User → Handler) → Request → Platform → Platform × Reply Body
  creating valid handler req p =
      admit_creator valid handler req p.memory (current_user s x req p.site)

  -- `audit_service.record` on a task.
  abbrev pub log_task : Request → User → String → ℕ → Db → Db
  log_task req u action id db =
      add_audit req.now (entry u action "task" (some (x.str id)) req.client) db

  abbrev pub with_db : Site → Db → Site
  with_db site db = record site { db = db }

  -- `IntegrityError` and `TaskConflictError` are caught.
  abbrev pub create_status : Error → ℕ
  create_status integrity = 409
  create_status task_conflict = 409
  create_status _ = 500

  abbrev pub created_reply : Request → User → Site → Result Db → Reply (Site × Body)
  created_reply req u site (err e) = http_error (create_status e)
  created_reply req u site (ok db) =
      let id = site.db.next_task_id in
      answer 201 (with_db site (log_task req u "task.create" id db), task_body (get_task id db))

  abbrev pub existing_task : Option String → Db → Option Task
  existing_task none db = none
  existing_task (some key) db = get_by_idempotency_key key db

  abbrev pub create_or_find :
      ℕ → TaskCreate → Request → User → Site → Option Task → Reply (Site × Body)
  create_or_find depth b req u site (some t) = answer 200 (site, task_info t)
  create_or_find depth b req u site none =
      created_reply req u site (create_task s depth req.now (spec_of b) site.db)

  unfoldable pub create_task_as : ℕ → TaskCreate → Request → User → Handler
  create_task_as depth b req u site =
      create_or_find depth b req u site (existing_task b.idempotency_key site.db)

  unfoldable pub create_task_route : ℕ → TaskCreate → Request → Platform → Platform × Reply Body
  create_task_route depth b req p = creating (valid_task b) (create_task_as depth b req) req p

  -- The texts of `status` and `priority` in the query are read as the values that they name.
  unfoldable pub list_tasks_route : Filters → ℕ → ℕ → Request → Site → Site × Reply Body
  list_tasks_route f limit offset req site =
      authorized s x none (valid_limit limit)
        (λ u after. answer 200 (
          after,
          task_list (count_tasks x.ilike f after.db) (list_tasks x.ilike f limit offset after.db),
        ))
        req site

  abbrev pub detail_reply : ℕ → Site → Option Task → Reply (Site × Body)
  detail_reply id site none = http_error 404
  detail_reply id site (some t) =
      answer 200 (site, task_detail t (attempts_of id site.db) (get_events id site.db))

  unfoldable pub get_task_route : ℕ → Request → Site → Site × Reply Body
  get_task_route id req site =
      authorized s x none true (λ u after. detail_reply id after (get_task id after.db)) req site

  -- `TaskConflictError` is caught, and `None` is a task that is not there.
  abbrev pub changed_reply :
      String → ℕ → Request → User → Site → Result (Option Db) → Reply (Site × Body)
  changed_reply action id req u site (err task_conflict) = http_error 409
  changed_reply action id req u site (err _) = http_error 500
  changed_reply action id req u site (ok none) = http_error 404
  changed_reply action id req u site (ok (some db)) =
      answer 200 (with_db site (log_task req u action id db), task_body (get_task id db))

  unfoldable pub retry_task_as : ℕ → ℕ → Request → User → Handler
  retry_task_as depth id req u site =
      changed_reply "task.retry" id req u site (manual_retry s depth req.now id site.db)

  unfoldable pub retry_task_route : ℕ → ℕ → Request → Site → Site × Reply Body
  retry_task_route depth id req site =
      authorized s x operators true (retry_task_as depth id req) req site

  unfoldable pub cancel_task_as : ℕ → ℕ → Request → User → Handler
  cancel_task_as depth id req u site =
      changed_reply "task.cancel" id req u site (cancel_task s depth req.now id site.db)

  unfoldable pub cancel_task_route : ℕ → ℕ → Request → Site → Site × Reply Body
  cancel_task_route depth id req site =
      authorized s x operators true (cancel_task_as depth id req) req site

  abbrev pub timeline_reply : ℕ → Site → List TaskEvent → Option Task → Reply (Site × Body)
  timeline_reply id site [] none = http_error 404
  timeline_reply id site events _ = answer 200 (site, timeline id events)

  unfoldable pub task_events_route : ℕ → Request → Site → Site × Reply Body
  task_events_route id req site =
      authorized s x none true
        (λ u after. timeline_reply id after (get_events id after.db) (get_task id after.db)) req
        site
