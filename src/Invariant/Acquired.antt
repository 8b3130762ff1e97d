-- ===== src/Invariant/Acquired.antt =====
-- The row that a lease is given to, and the attempt that `start_attempt` counts, in
-- backend/app/worker/services/attempts.py.
use distributed_task_platfor.Prelude.{
  ℕ, ◌+◌, String, ◌≡◌, refl, Option, none, some, List, [], ◌∷◌, arith, ◌==◌, ==_refl, Bool-cases,
  inl, inr, is_none, if◌then◌else◌,
}
use distributed_task_platfor.Model.Status.{running, task_attempt_started}
use distributed_task_platfor.Model.Rows.{Task, attempt_number}
use distributed_task_platfor.Model.Settings.{Settings}
use distributed_task_platfor.Model.Db.{Db, find, replace, get_task, put_task}
use distributed_task_platfor.Model.Db.Rows.{find-replace_self}
use distributed_task_platfor.Model.Result.{ok, Ensures}
use distributed_task_platfor.StatusChange.{record_event}
use distributed_task_platfor.StatusChange.Induction.{get_task-id}
use distributed_task_platfor.Attempts.{can_acquire, update_where, count_attempt, with_row}
use distributed_task_platfor.Invariant.{IsSettled, Holds}
use distributed_task_platfor.Invariant.Primitives.{write-Invariant, note-Invariant}
use distributed_task_platfor.Invariant.Steps.{IsSettled-find}

-- The row that `try_acquire_lease` makes of a row.
abbrev leased : ℕ → String → ℕ → Task → Task
leased now worker lease t = record t {
  lease_owner = some worker;
  lease_expires_at = some (now + lease);
  updated_at = now;
}

module _ (now id : ℕ) (f : Task → Task) (same : (t : Task) → (f t).id ≡ t.id) where
  pub find-acquired :
      (i : ℕ) (ts : List Task) (t : Task)
      → find i (update_where (can_acquire now id) f ts) ≡ some t
      → (u : Task) × (find i ts ≡ some u) × (t ≡ (if can_acquire now id u then f u else u))
  find-acquired i [] t h = cc
  find-acquired i (u ∷ ts) t h = elim (Bool-cases (u.id == i)) [
    | inl e ↦ (u, rw e, ground (arith, same u))
    | inr e ↦ rw e (find-acquired i ts t (ground (arith, same u)))
  ]

  -- Only rows of that id are touched, and they are written over.
  pub replace-acquired :
      (t : Task) (ts : List Task)
      → t.id ≡ id
      → replace t (update_where (can_acquire now id) f ts) ≡ replace t ts
  replace-acquired t [] h = refl
  replace-acquired t (u ∷ ts) h = elim (Bool-cases (can_acquire now id u)) [
    | inr e ↦ rw (e, replace-acquired t ts h)
    | inl e ↦
        let same_id : u.id ≡ t.id = ground arith in
        rw (e, replace-acquired t ts h, same u, same_id, ==_refl t.id)
  ]

module _ (s : Settings) (now : ℕ) where
  counted-IsSettled :
      (t : Task)
      → IsSettled s t
      → t.status ≡ running
      → IsSettled s (record t {
        attempts = t.attempts + 1;
        started_at = if is_none t.started_at then some now else t.started_at;
      })
  counted-IsSettled t r k = record {
    finished = r.finished;
    unfinished = r.unfinished;
    unscheduled = r.unscheduled;
    waiting = r.waiting;
    started = λ e. ground arith;
    owner = r.owner;
    lease = r.lease;
    cycles = r.cycles;
  }

  count_attempt-Holds :
      (depth : ℕ) (worker : String) (t : Task) (db : Db)
      → Holds s db
      → get_task t.id db ≡ some t
      → t.status ≡ running
      → Holds s (count_attempt s depth now worker t db)
  unfolding count_attempt record_event put_task get_task
  count_attempt-Holds depth worker t db h g k =
      let t' = record t {
        attempts = t.attempts + 1;
        started_at = if is_none t.started_at then some now else t.started_at;
      } in
      note-Invariant s
        (write-Invariant s h t' t g refl
          (counted-IsSettled t (IsSettled-find s now t.id t db h g) k))
        t' t' task_attempt_started running (attempt_number (t.attempts + 1))
        (find-replace_self t' db.tasks g) refl k

  -- What holds between the change to `running` and the rest of `start_attempt`.
  abbrev pub RunsAt : ℕ → Db → Type 0
  RunsAt i db = Holds s db × ((t : Task) → get_task i db ≡ some t → t.status ≡ running)

  pub with_row-Holds :
      (depth : ℕ) (worker : String) (id : ℕ) (db : Db) (o : Option Task)
      → RunsAt id db
      → get_task id db ≡ o
      → Ensures (Holds s) (with_row o (λ t. ok (count_attempt s depth now worker t db)))
  with_row-Holds depth worker id db none q e = tt
  with_row-Holds depth worker id db (some t) q e =
      count_attempt-Holds depth worker t db q.0 (get_task-id id db t e) (q.1 t e)
