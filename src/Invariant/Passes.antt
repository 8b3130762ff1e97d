-- ===== src/Invariant/Passes.antt =====
-- A loop of the coordinator over the rows that a query selected keeps the invariant, if the step for
-- one row does and leaves the other rows.
use distributed_task_platfor.Prelude.{
  ℕ, ◌≡◌, ◌∙◌, Bool, true, false, some, List, [], ◌∷◌, arith, ◌==◌, All,
}
use distributed_task_platfor.Model.Rows.{Task}
use distributed_task_platfor.Model.Settings.{Settings}
use distributed_task_platfor.Model.Db.{Db, find, replace}
use distributed_task_platfor.Model.Db.Rows.{find-replace}
use distributed_task_platfor.Model.Db.Distinct.{
  Differs, Distinct, IsRowOf, all_rows, query, Distinct-query, All-query, query-passes,
}
use distributed_task_platfor.Model.Result.{Result, Ensures, Outcome-bind}
use distributed_task_platfor.Scheduler.{for_each}
use distributed_task_platfor.Invariant.{Holds}

-- The rows of other tasks.
abbrev pub Others : ℕ → Db → Db → Type 0
Others i a b = (j : ℕ) → (i == j) ≡ false → find j a.tasks ≡ find j b.tasks

pub Others-replace : (t : Task) (a b : Db) → a.tasks ≡ replace t b.tasks → Others t.id a b
Others-replace t a b e j n = rw e (find-replace j t b.tasks ∙ rw n)

module _ (s : Settings) where
  -- A step of the loop keeps the invariant and the other rows.
  abbrev pub Steps : (Task → Db → Result Db) → (Task → Bool) → Type 0
  Steps step p =
      (t : Task) (db : Db)
      → Holds s db
      → find t.id db.tasks ≡ some t
      → p t ≡ true
      → Ensures (λ db'. Holds s db' × Others t.id db' db) (step t db)

  rows_after :
      (t : Task) (ts : List Task) (a b : Db)
      → Others t.id b a
      → All (Differs t) ts
      → All (IsRowOf a.tasks) ts
      → All (IsRowOf b.tasks) ts
  rows_after t [] a b o d h = tt
  rows_after t (u ∷ ts) a b o d h = (o u.id (ground arith) ∙ h.0, rows_after t ts a b o d.1 h.1)

  for_each-Holds :
      (step : Task → Db → Result Db) (p : Task → Bool) (ts : List Task) (db : Db)
      → Steps step p
      → Holds s db
      → Distinct ts
      → All (IsRowOf db.tasks) ts
      → All (λ t. p t ≡ true) ts
      → Ensures (Holds s) (for_each step ts db)
  unfolding for_each
  for_each-Holds step p [] db k h d r q = h
  for_each-Holds step p (t ∷ ts) db k h d r q =
      Outcome-bind (λ db'. Holds s db' × Others t.id db' db) (Holds s) Unit (step t db)
        (for_each step ts) (k t db h r.0 q.0)
        (λ db' o. for_each-Holds step p ts db' k o.0 d.1 (rows_after t ts db db' o.1 d.0 r.1) q.1)

  -- The loop over the rows that a query selected.
  pub pass-Holds :
      (step : Task → Db → Result Db) (p : Task → Bool) (key : Task → ℕ) (limit : ℕ) (db : Db)
      (from : Db)
      → from.tasks ≡ db.tasks
      → Steps step p
      → Holds s db
      → Ensures (Holds s) (for_each step (query p key limit from.tasks) db)
  pass-Holds step p key limit db from e k h = rw e (
      for_each-Holds step p (query p key limit db.tasks) db k h
        (Distinct-query p key limit db.tasks h.distinct)
        (All-query (IsRowOf db.tasks) p key limit db.tasks (all_rows db.tasks h.distinct))
        (query-passes p key limit db.tasks))
