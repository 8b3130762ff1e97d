-- ===== src/Batches.antt =====
-- backend/app/services/batches.py: a batch of tasks, its progress and its cancellation.
pub mod Cancellation
pub mod Progress
use distributed_task_platfor.Prelude.{
  ℕ, ◌+◌, String, Bool, true, false, ◌&&◌, Option, none, some, List, [], ◌∷◌, ◌++◌, ◌==◌, ltb,
  count, select, length, if◌then◌else◌,
}
use distributed_task_platfor.Model.Status.{
  Status, created, queued, running, retry_scheduled, scheduled, success, failed, cancelled,
  dead_letter, timeout, ◌=?◌,
}
use distributed_task_platfor.Model.Rows.{Task}
use distributed_task_platfor.Model.Settings.{Settings}
use distributed_task_platfor.Model.Db.{Db}
use distributed_task_platfor.Model.Result.{Result, ok, err, batch_limit, task_conflict, ◌>>=◌}
use distributed_task_platfor.Tasks.{TaskSpec, create_task, cancel_task}

abbrev pub in_batch : ℕ → Task → Bool
in_batch b t = elim t.batch_id [ none ↦ false | some c ↦ c == b ]

-- `counts.get(status, 0)` over the grouped rows of the batch.
unfoldable pub counted : ℕ → Status → Db → ℕ
counted b s db = count (λ t. in_batch b t && (t.status =? s)) db.tasks

pub record BatchProgress : Type 0 where
  pub total : ℕ
  pub queued : ℕ
  pub running : ℕ
  pub succeeded : ℕ
  pub failed : ℕ
  pub cancelled : ℕ
  pub pending : ℕ
  pub completed : ℕ

abbrev pub sum_counts : ℕ → List Status → Db → ℕ
sum_counts b [] db = 0
sum_counts b (s ∷ ss) db = counted b s db + sum_counts b ss db

-- `TASK_STATUSES`.
abbrev pub task_statuses : List Status
task_statuses =
    created ∷ queued ∷ running ∷ retry_scheduled ∷ scheduled ∷ success ∷ failed ∷ cancelled
    ∷ dead_letter ∷ timeout ∷ []

unfoldable pub get_progress : ℕ → Db → BatchProgress
get_progress b db =
    let succeeded = counted b success db in
    let lost = counted b failed db + counted b timeout db in
    let cancelled = counted b Status.cancelled db in
    record {
      total = sum_counts b task_statuses db;
      queued = counted b Status.queued db;
      running = counted b Status.running db;
      succeeded = succeeded;
      failed = lost;
      cancelled = cancelled;
      pending = sum_counts b (created ∷ retry_scheduled ∷ scheduled ∷ dead_letter ∷ []) db;
      completed = succeeded + lost + cancelled;
    }

module _ (s : Settings) (depth now : ℕ) where
  -- The loop of `create_batch`; an exception of one task ends the whole transaction.
  unfoldable pub create_all : List TaskSpec → Db → Result (Db × List ℕ)
  create_all [] db = ok (db, [])
  create_all (spec ∷ specs) db = do
    db' ← create_task s depth now spec db
    (db'', ids) ← create_all specs db'
    ok (db'', db.next_task_id ∷ ids)

  abbrev pub with_batch : ℕ → Option ℕ → List TaskSpec → List TaskSpec
  with_batch b user [] = []
  with_batch b user (spec ∷ specs) =
      record spec { batch_id = some b; created_by = user } ∷ with_batch b user specs

  -- `b` is the id that the new row of the batch gets.
  unfoldable pub create_batch : ℕ → Option ℕ → List TaskSpec → Db → Result (Db × List ℕ)
  create_batch b user specs db =
      if ltb s.batch_max_tasks (length specs)
      then err batch_limit
      else create_all (with_batch b user specs) db

  -- The number of cancelled tasks, and the ids of those in conflict.
  abbrev pub tally : ℕ → Db × ℕ × List ℕ → Result (Option Db) → Result (Db × ℕ × List ℕ)
  tally id (db, n, conflicts) (ok none) = ok (db, n + 1, conflicts)
  tally id (db, n, conflicts) (ok (some db')) = ok (db', n + 1, conflicts)
  tally id (db, n, conflicts) (err task_conflict) = ok (db, n, conflicts ++ id ∷ [])
  tally id (db, n, conflicts) (err e) = err e

  unfoldable pub cancel_each : List Task → Db × ℕ × List ℕ → Result (Db × ℕ × List ℕ)
  cancel_each [] acc = ok acc
  cancel_each (t ∷ ts) acc = do
    acc' ← tally t.id acc (cancel_task s depth now t.id acc.0)
    cancel_each ts acc'

  -- `exists` says whether the row of the batch is there.
  unfoldable pub cancel_batch : Bool → ℕ → Db → Result (Db × ℕ × List ℕ)
  cancel_batch exists b db =
      if exists then cancel_each (select (in_batch b) db.tasks) (db, 0, []) else err task_conflict
