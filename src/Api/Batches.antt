-- ===== src/Api/Batches.antt =====
-- backend/app/api/routes/batches.py and the rows of batches in backend/app/services/batches.py.
use distributed_task_platfor.Prelude.{
  ℕ, suc, String, true, Option, none, some, List, [], ◌∷◌, ◌++◌, ◌==◌, is_some, select, count,
  length, if◌then◌else◌,
}
use distributed_task_platfor.Model.Rows.{Task, TaskBatch}
use distributed_task_platfor.Model.Settings.{Settings}
use distributed_task_platfor.Model.Db.{Db}
use distributed_task_platfor.Model.Query.{page}
use distributed_task_platfor.Model.Result.{Result, ok, err, task_conflict}
use distributed_task_platfor.Auth.{User}
use distributed_task_platfor.Audit.{add_audit}
use distributed_task_platfor.Batches.{
  BatchProgress, in_batch, get_progress, create_batch, cancel_batch,
}
use distributed_task_platfor.Api.{
  Site, Request, External, Body, no_content, batch_created, batch_tasks, batch_list, batch_action,
  Reply, answer, http_error, Handler, entry,
}
use distributed_task_platfor.Api.Access.{operators, authorized}
use distributed_task_platfor.Api.Schemas.{BatchCreateRequest, valid_batch, specs_of, valid_limit}

-- `get_batch`.
abbrev pub find_batch : ℕ → List TaskBatch → Option TaskBatch
find_batch i [] = none
find_batch i (b ∷ bs) = if b.id == i then some b else find_batch i bs

unfoldable pub list_batches : ℕ → ℕ → Site → List TaskBatch
list_batches limit offset site = page (λ b. b.id) limit offset site.batches

unfoldable pub count_batches : Site → ℕ
count_batches site = length site.batches

unfoldable pub list_batch_tasks : ℕ → ℕ → ℕ → Db → List Task × ℕ
list_batch_tasks id limit offset db =
    (page (λ t. t.id) limit offset (select (in_batch id) db.tasks), count (in_batch id) db.tasks)

abbrev pub with_progress : Db → List TaskBatch → List (TaskBatch × BatchProgress)
with_progress db [] = []
with_progress db (b ∷ bs) = (b, get_progress b.id db) ∷ with_progress db bs

module _ (s : Settings) (x : External) where
  abbrev pub log_batch : Request → User → String → ℕ → Db → Db
  log_batch req u action id db =
      add_audit req.now (entry u action "batch" (some (x.str id)) req.client) db

  -- Any exception of the creation is answered with status 400.
  abbrev pub batch_made :
      BatchCreateRequest → Request → User → Site → Result (Db × List ℕ) → Reply (Site × Body)
  batch_made b req u site (err e) = http_error 400
  batch_made b req u site (ok (db, ids)) =
      let batch : TaskBatch = record {
        id = site.next_batch_id;
        name = b.name;
        created_by = some u.id;
        created_at = req.now;
      } in
      let after = log_batch req u "batch.create" batch.id db in
      answer 201 (
        record site {
          db = after;
          batches = site.batches ++ batch ∷ [];
          next_batch_id = suc site.next_batch_id;
        },
        batch_created batch (get_progress batch.id after) ids,
      )

  unfoldable pub create_batch_as : ℕ → BatchCreateRequest → Request → User → Handler
  create_batch_as depth b req u site =
      batch_made b req u site
        (create_batch s depth req.now site.next_batch_id (some u.id) (specs_of b.tasks) site.db)

  unfoldable pub create_batch_route : ℕ → BatchCreateRequest → Request → Site → Site × Reply Body
  create_batch_route depth b req site =
      authorized s x operators (valid_batch b) (create_batch_as depth b req) req site

  unfoldable pub list_batches_route : ℕ → ℕ → Request → Site → Site × Reply Body
  list_batches_route limit offset req site =
      authorized s x none (valid_limit limit)
        (λ u after. answer 200 (
          after,
          batch_list (count_batches after)
              (with_progress after.db (list_batches limit offset after)),
        ))
        req site

  abbrev pub batch_reply : ℕ → ℕ → ℕ → Site → Option TaskBatch → Reply (Site × Body)
  batch_reply id limit offset site none = http_error 404
  batch_reply id limit offset site (some batch) =
      let (tasks, n) = list_batch_tasks id limit offset site.db in
      answer 200 (site, batch_tasks batch (get_progress id site.db) n tasks)

  unfoldable pub get_batch_route : ℕ → ℕ → ℕ → Request → Site → Site × Reply Body
  get_batch_route id limit offset req site =
      authorized s x none (valid_limit limit)
        (λ u after. batch_reply id limit offset after (find_batch id after.batches)) req site

  abbrev pub action_body : Option TaskBatch → BatchProgress → List ℕ → Body
  action_body none progress conflicts = no_content
  action_body (some batch) progress conflicts = batch_action batch progress conflicts

  -- `TaskConflictError` comes from `cancel_batch` itself only, for a batch that is not there.
  abbrev pub batch_cancelled :
      ℕ → Request → User → Site → Result (Db × ℕ × List ℕ) → Reply (Site × Body)
  batch_cancelled id req u site (err task_conflict) = http_error 404
  batch_cancelled id req u site (err _) = http_error 500
  batch_cancelled id req u site (ok (db, n, conflicts)) =
      let after = log_batch req u "batch.cancel" id db in
      answer 200 (
        record site { db = after },
        action_body (find_batch id site.batches) (get_progress id after) conflicts,
      )

  unfoldable pub cancel_batch_as : ℕ → ℕ → Request → User → Handler
  cancel_batch_as depth id req u site =
      batch_cancelled id req u site
        (cancel_batch s depth req.now (is_some (find_batch id site.batches)) id site.db)

  unfoldable pub cancel_batch_route : ℕ → ℕ → Request → Site → Site × Reply Body
  cancel_batch_route depth id req site =
      authorized s x operators true (cancel_batch_as depth id req) req site
