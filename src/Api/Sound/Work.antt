-- ===== src/Api/Sound/Work.antt =====
-- What the handlers of tasks, one by one and in bulk, keep of the tables.
use distributed_task_platfor.Prelude.{ℕ, String, ◌≡◌, refl, Option, none, some, List, length}
use distributed_task_platfor.Model.Rows.{Task}
use distributed_task_platfor.Model.Settings.{Settings}
use distributed_task_platfor.Model.Db.{Db}
use distributed_task_platfor.Model.Result.{Result, ok, err, task_conflict, Ensures}
use distributed_task_platfor.Auth.{User}
use distributed_task_platfor.Tasks.{create_task, Created, Bulk}
use distributed_task_platfor.Invariant.Reach.{Step, Reach, empty_db}
use distributed_task_platfor.Invariant.Sequences.{
  bulk_create-Reach, bulk_retry-Reach, bulk_cancel-Reach,
}
use distributed_task_platfor.Api.{Site, Request, External}
use distributed_task_platfor.Api.Schemas.{TaskCreate, spec_of, specs_of}
use distributed_task_platfor.Api.Tasks.{
  created_reply, create_or_find, create_task_as, changed_reply, retry_task_as, cancel_task_as,
}
use distributed_task_platfor.Api.Bulk.{
  bulk_created, bulk_create_as, bulk_changed, bulk_retry_as, bulk_cancel_as,
}
use distributed_task_platfor.Api.Keeps.{After}
use distributed_task_platfor.Api.Sound.{IsSound, audited}

module _ (s : Settings) (x : External) where
  created-IsSound :
      (depth : ℕ) (b : TaskCreate) (req : Request) (u : User) (site : Site) (r : Result Db)
      → create_task s depth req.now (spec_of b) site.db ≡ r
      → IsSound s site
      → After (IsSound s) (created_reply s x req u site r)
  created-IsSound depth b req u site (err e) q h = tt
  created-IsSound depth b req u site (ok db) q h = record {
    reach =
        audited s x req.now _ db (Reach.next h.reach (Step.creates depth req.now (spec_of b) q));
    names = h.names;
  }

  found-IsSound :
      (depth : ℕ) (b : TaskCreate) (req : Request) (u : User) (site : Site) (o : Option Task)
      → IsSound s site
      → After (IsSound s) (create_or_find s x depth b req u site o)
  found-IsSound depth b req u site (some t) h = h
  found-IsSound depth b req u site none h = created-IsSound depth b req u site _ refl h

  pub create_task-IsSound :
      (depth : ℕ) (b : TaskCreate) (req : Request) (u : User) (site : Site)
      → IsSound s site
      → After (IsSound s) (create_task_as s x depth b req u site)
  unfolding create_task_as
  create_task-IsSound depth b req u site h = found-IsSound depth b req u site _ h

  changed-IsSound :
      (action : String) (id : ℕ) (req : Request) (u : User) (site : Site) (r : Result (Option Db))
      → ((db : Db) → r ≡ ok (some db) → Step s site.db db)
      → IsSound s site
      → After (IsSound s) (changed_reply s x action id req u site r)
  changed-IsSound action id req u site (err task_conflict) k h = tt
  changed-IsSound action id req u site (err _) k h = tt
  changed-IsSound action id req u site (ok none) k h = tt
  changed-IsSound action id req u site (ok (some db)) k h = record {
    reach = audited s x req.now _ db (Reach.next h.reach (k db refl));
    names = h.names;
  }

  pub retry_task-IsSound :
      (depth id : ℕ) (req : Request) (u : User) (site : Site)
      → IsSound s site
      → After (IsSound s) (retry_task_as s x depth id req u site)
  unfolding retry_task_as
  retry_task-IsSound depth id req u site h =
      changed-IsSound "task.retry" id req u site _ (λ db e. Step.retries depth req.now id e) h

  pub cancel_task-IsSound :
      (depth id : ℕ) (req : Request) (u : User) (site : Site)
      → IsSound s site
      → After (IsSound s) (cancel_task_as s x depth id req u site)
  unfolding cancel_task_as
  cancel_task-IsSound depth id req u site h =
      changed-IsSound "task.cancel" id req u site _ (λ db e. Step.cancels depth req.now id e) h

  made-IsSound :
      (req : Request) (u : User) (site : Site) (n : ℕ) (r : Result Created)
      → Ensures (λ (c : Created). Reach s empty_db c.db) r
      → IsSound s site
      → After (IsSound s) (bulk_created s x req u site n r)
  made-IsSound req u site n (err e) k h = tt
  made-IsSound req u site n (ok c) k h = record {
    reach = audited s x req.now _ c.db k;
    names = h.names;
  }

  pub bulk_create-IsSound :
      (depth : ℕ) (bs : List TaskCreate) (req : Request) (u : User) (site : Site)
      → IsSound s site
      → After (IsSound s) (bulk_create_as s x depth bs req u site)
  unfolding bulk_create_as
  bulk_create-IsSound depth bs req u site h =
      made-IsSound req u site (length bs) _
        (bulk_create-Reach s empty_db depth req.now (specs_of bs) site.db h.reach) h

  bulk-IsSound :
      (action : String) (req : Request) (u : User) (site : Site) (n : ℕ) (r : Result Bulk)
      → Ensures (λ (b : Bulk). Reach s empty_db b.db) r
      → IsSound s site
      → After (IsSound s) (bulk_changed s x action req u site n r)
  bulk-IsSound action req u site n (err e) k h = tt
  bulk-IsSound action req u site n (ok b) k h = record {
    reach = audited s x req.now _ b.db k;
    names = h.names;
  }

  pub bulk_retry-IsSound :
      (depth : ℕ) (ids : List ℕ) (req : Request) (u : User) (site : Site)
      → IsSound s site
      → After (IsSound s) (bulk_retry_as s x depth ids req u site)
  unfolding bulk_retry_as
  bulk_retry-IsSound depth ids req u site h =
      bulk-IsSound "task.bulk_retry" req u site (length ids) _
        (bulk_retry-Reach s empty_db depth req.now ids site.db h.reach) h

  pub bulk_cancel-IsSound :
      (depth : ℕ) (ids : List ℕ) (req : Request) (u : User) (site : Site)
      → IsSound s site
      → After (IsSound s) (bulk_cancel_as s x depth ids req u site)
  unfolding bulk_cancel_as
  bulk_cancel-IsSound depth ids req u site h =
      bulk-IsSound "task.bulk_cancel" req u site (length ids) _
        (bulk_cancel-Reach s empty_db depth req.now ids site.db h.reach) h
