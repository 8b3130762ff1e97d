-- ===== src/Invariant/Sequences.antt =====
-- The operations on many tasks in one transaction are sequences of steps: those in bulk of
-- backend/app/services/tasks.py and those of batches.py.
use distributed_task_platfor.Prelude.{
  ℕ, ◌≡◌, refl, Bool, true, false, Option, none, some, List, [], ◌∷◌, inl, inr, ltb, length, select,
  Bool-cases,
}
use distributed_task_platfor.Model.Rows.{Task}
use distributed_task_platfor.Model.Settings.{Settings}
use distributed_task_platfor.Model.Db.{Db}
use distributed_task_platfor.Model.Result.{
  Result, ok, err, integrity, task_conflict, Ensures, Outcome-bind,
}
use distributed_task_platfor.Tasks.{
  TaskSpec, create_task, manual_retry, cancel_task, Bulk, report, bulk, bulk_retry, bulk_cancel,
  start_bulk, Created, savepoint, create_each, bulk_create,
}
use distributed_task_platfor.Batches.{
  create_all, with_batch, create_batch, tally, cancel_each, cancel_batch, in_batch,
}
use distributed_task_platfor.Invariant.Reach.{Step, Reach}

module _ (s : Settings) (start : Db) where
  abbrev Reached : Db → Type 0
  Reached db = Reach s start db

  savepoint-Reach :
      (spec : TaskSpec) (c : Created) (r : Result Db)
      → Reached c.db
      → ((b : Db) → r ≡ ok b → Reached b)
      → Ensures (λ (d : Created). Reached d.db) (savepoint spec c r)
  savepoint-Reach spec c (ok b) h k = k b refl
  savepoint-Reach spec c (err integrity) h k = h
  savepoint-Reach spec c (err _) h k = tt

  create_each-Reach :
      (depth now : ℕ) (specs : List TaskSpec) (c : Created)
      → Reached c.db
      → Ensures (λ (d : Created). Reached d.db) (create_each s depth now specs c)
  unfolding create_each
  create_each-Reach depth now [] c h = h
  create_each-Reach depth now (spec ∷ specs) c h =
      Outcome-bind (λ (d : Created). Reached d.db) (λ (d : Created). Reached d.db) Unit
        (savepoint spec c (create_task s depth now spec c.db)) _
        (savepoint-Reach spec c _ h (λ b e. Reach.next h (Step.creates depth now spec e)))
        (λ d k. create_each-Reach depth now specs d k)

  pub bulk_create-Reach :
      (depth now : ℕ) (specs : List TaskSpec) (db : Db)
      → Reached db
      → Ensures (λ (c : Created). Reached c.db) (bulk_create s depth now specs db)
  unfolding bulk_create
  bulk_create-Reach depth now specs db h = create_each-Reach depth now specs _ h

  report-Reach :
      (id : ℕ) (b : Bulk) (r : Result (Option Db))
      → Reached b.db
      → ((db : Db) → r ≡ ok (some db) → Reached db)
      → Ensures (λ (c : Bulk). Reached c.db) (report id b r)
  report-Reach id b (ok (some db)) h k = k db refl
  report-Reach id b (ok none) h k = h
  report-Reach id b (err task_conflict) h k = h
  report-Reach id b (err _) h k = tt

  bulk-Reach :
      (op : ℕ → Db → Result (Option Db)) (ids : List ℕ) (b : Bulk)
      → ((id : ℕ) (db db' : Db) → op id db ≡ ok (some db') → Step s db db')
      → Reached b.db
      → Ensures (λ (c : Bulk). Reached c.db) (bulk op ids b)
  unfolding bulk
  bulk-Reach op [] b step h = h
  bulk-Reach op (id ∷ ids) b step h =
      Outcome-bind (λ (c : Bulk). Reached c.db) (λ (c : Bulk). Reached c.db) Unit
        (report id b (op id b.db)) _
        (report-Reach id b _ h (λ db e. Reach.next h (step id b.db db e)))
        (λ c k. bulk-Reach op ids c step k)

  pub bulk_retry-Reach :
      (depth now : ℕ) (ids : List ℕ) (db : Db)
      → Reached db
      → Ensures (λ (c : Bulk). Reached c.db) (bulk_retry s depth now ids db)
  unfolding bulk_retry
  bulk_retry-Reach depth now ids db h =
      bulk-Reach (manual_retry s depth now) ids (start_bulk db)
        (λ id a b e. Step.retries depth now id e) h

  pub bulk_cancel-Reach :
      (depth now : ℕ) (ids : List ℕ) (db : Db)
      → Reached db
      → Ensures (λ (c : Bulk). Reached c.db) (bulk_cancel s depth now ids db)
  unfolding bulk_cancel
  bulk_cancel-Reach depth now ids db h =
      bulk-Reach (cancel_task s depth now) ids (start_bulk db)
        (λ id a b e. Step.cancels depth now id e) h

  made-Reach :
      (depth now : ℕ) (spec : TaskSpec) (db : Db) (r : Result Db)
      → create_task s depth now spec db ≡ r
      → Reached db
      → Ensures Reached r
  made-Reach depth now spec db (ok b) e h = Reach.next h (Step.creates depth now spec e)
  made-Reach depth now spec db (err x) e h = tt

  create_all-Reach :
      (depth now : ℕ) (specs : List TaskSpec) (db : Db)
      → Reached db
      → Ensures (λ (r : Db × List ℕ). Reached r.0) (create_all s depth now specs db)
  unfolding create_all
  create_all-Reach depth now [] db h = h
  create_all-Reach depth now (spec ∷ specs) db h =
      Outcome-bind Reached (λ (r : Db × List ℕ). Reached r.0) Unit (create_task s depth now spec db)
        _ (made-Reach depth now spec db _ refl h)
        (λ b k.
          Outcome-bind (λ (r : Db × List ℕ). Reached r.0) (λ (r : Db × List ℕ). Reached r.0) Unit
            (create_all s depth now specs b) _ (create_all-Reach depth now specs b k) (λ r k'. k'))

  pub create_batch-Reach :
      (depth now b : ℕ) (user : Option ℕ) (specs : List TaskSpec) (db : Db)
      → Reached db
      → Ensures (λ (r : Db × List ℕ). Reached r.0) (create_batch s depth now b user specs db)
  unfolding create_batch
  create_batch-Reach depth now b user specs db h =
      elim (Bool-cases (ltb s.batch_max_tasks (length specs))) [
        | inl e ↦ rw e tt
        | inr e ↦ rw e (create_all-Reach depth now (with_batch s depth now b user specs) db h)
      ]

  tally-Reach :
      (depth now id : ℕ) (acc : Db × ℕ × List ℕ) (r : Result (Option Db))
      → Reached acc.0
      → ((db : Db) → r ≡ ok (some db) → Reached db)
      → Ensures (λ (a : Db × ℕ × List ℕ). Reached a.0) (tally s depth now id acc r)
  tally-Reach depth now id (db, n, cs) (ok none) h k = h
  tally-Reach depth now id (db, n, cs) (ok (some b)) h k = k b refl
  tally-Reach depth now id (db, n, cs) (err task_conflict) h k = h
  tally-Reach depth now id (db, n, cs) (err _) h k = tt

  cancel_each-Reach :
      (depth now : ℕ) (ts : List Task) (acc : Db × ℕ × List ℕ)
      → Reached acc.0
      → Ensures (λ (a : Db × ℕ × List ℕ). Reached a.0) (cancel_each s depth now ts acc)
  unfolding cancel_each
  cancel_each-Reach depth now [] acc h = h
  cancel_each-Reach depth now (t ∷ ts) acc h =
      Outcome-bind (λ (a : Db × ℕ × List ℕ). Reached a.0) (λ (a : Db × ℕ × List ℕ). Reached a.0)
        Unit (tally s depth now t.id acc (cancel_task s depth now t.id acc.0)) _
        (tally-Reach depth now t.id acc _ h (λ db e. Reach.next h (Step.cancels depth now t.id e)))
        (λ a k. cancel_each-Reach depth now ts a k)

  pub cancel_batch-Reach :
      (depth now b : ℕ) (exists : Bool) (db : Db)
      → Reached db
      → Ensures (λ (a : Db × ℕ × List ℕ). Reached a.0) (cancel_batch s depth now exists b db)
  unfolding cancel_batch
  cancel_batch-Reach depth now b true db h =
      cancel_each-Reach depth now (select (in_batch b) db.tasks) (db, 0, []) h
  cancel_batch-Reach depth now b false db h = tt
