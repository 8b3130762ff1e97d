-- ===== src/Api/Bulk.antt =====
-- backend/app/api/routes/tasks.py: the three operations in bulk.
use distributed_task_platfor.Prelude.{ℕ, String, Option, none, some, List, [], ◌∷◌, length}
use distributed_task_platfor.Model.Settings.{Settings}
use distributed_task_platfor.Model.Db.{Db}
use distributed_task_platfor.Model.Result.{Result, ok, err}
use distributed_task_platfor.Auth.{User}
use distributed_task_platfor.Audit.{add_audit}
use distributed_task_platfor.Tasks.{TaskSpec, Bulk, bulk_retry, bulk_cancel, Created, bulk_create}
use distributed_task_platfor.Api.{
  Site, Platform, Request, External, Body, bulk_result, Reply, answer, http_error, Handler, entry,
  client_or_unknown,
}
use distributed_task_platfor.Api.Access.{operators, authorized}
use distributed_task_platfor.Api.Schemas.{TaskCreate, valid_bulk, valid_count, specs_of}
use distributed_task_platfor.Api.Tasks.{creating, with_db}

-- The conflicts of a creation have no id: the response says 0 for each.
abbrev pub no_ids : List TaskSpec → List ℕ
no_ids [] = []
no_ids (c ∷ cs) = 0 ∷ no_ids cs

module _ (s : Settings) (x : External) where
  abbrev pub log_bulk : Request → User → String → Option String → Db → Db
  log_bulk req u action ip db = add_audit req.now (entry u action "task" none ip) db

  -- No exception of a bulk creation is caught.
  abbrev pub bulk_created : Request → User → Site → ℕ → Result Created → Reply (Site × Body)
  bulk_created req u site n (err e) = http_error 500
  bulk_created req u site n (ok c) = answer 201 (
    with_db s x site (log_bulk req u "task.bulk_create" (some (client_or_unknown req.client)) c.db),
    bulk_result n c.tasks (no_ids c.conflicts),
  )

  unfoldable pub bulk_create_as : ℕ → List TaskCreate → Request → User → Handler
  bulk_create_as depth bs req u site =
      bulk_created req u site (length bs) (bulk_create s depth req.now (specs_of bs) site.db)

  unfoldable pub bulk_create_route :
      ℕ → List TaskCreate → Request → Platform → Platform × Reply Body
  bulk_create_route depth bs req p =
      creating s x (valid_bulk bs) (bulk_create_as depth bs req) req p

  abbrev pub bulk_changed : String → Request → User → Site → ℕ → Result Bulk → Reply (Site × Body)
  bulk_changed action req u site n (err e) = http_error 500
  bulk_changed action req u site n (ok b) = answer 200 (
    with_db s x site (log_bulk req u action req.client b.db),
    bulk_result n b.succeeded b.conflicts,
  )

  unfoldable pub bulk_retry_as : ℕ → List ℕ → Request → User → Handler
  bulk_retry_as depth ids req u site =
      bulk_changed "task.bulk_retry" req u site (length ids)
        (bulk_retry s depth req.now ids site.db)

  unfoldable pub bulk_retry_route : ℕ → List ℕ → Request → Site → Site × Reply Body
  bulk_retry_route depth ids req site =
      authorized s x operators (valid_count ids) (bulk_retry_as depth ids req) req site

  unfoldable pub bulk_cancel_as : ℕ → List ℕ → Request → User → Handler
  bulk_cancel_as depth ids req u site =
      bulk_changed "task.bulk_cancel" req u site (length ids)
        (bulk_cancel s depth req.now ids site.db)

  unfoldable pub bulk_cancel_route : ℕ → List ℕ → Request → Site → Site × Reply Body
  bulk_cancel_route depth ids req site =
      authorized s x operators (valid_count ids) (bulk_cancel_as depth ids req) req site
