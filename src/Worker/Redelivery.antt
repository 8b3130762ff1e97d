-- ===== src/Worker/Redelivery.antt =====
-- A message that the broker delivers again, in backend/app/worker/main.py and
-- worker/services/attempts.py.
use mathlib.Core.Path.{subst}
use distributed_task_platfor.Prelude.{
  ℕ, suc, ◌⊎◌, none, inl, inr, ◌≤◌, String, ◌≡◌, refl, sym, ap, ◌∙◌, Bool, true, false, Option,
  some, ltb, Bool-cases, truncate,
}
use distributed_task_platfor.Model.Status.{queued, running, success, task_succeeded, ◌=?◌}
use distributed_task_platfor.Model.Rows.{Task, empty}
use distributed_task_platfor.Model.Settings.{Settings}
use distributed_task_platfor.Model.Db.{Db, find, get_task}
use distributed_task_platfor.Model.Result.{Result, ok, err, Returns, Outcome, Outcome-weaken}
use distributed_task_platfor.StatusChange.{assign_status}
use distributed_task_platfor.StatusChange.Total.{blocked}
use distributed_task_platfor.Model.Db.Rows.{id-find}
use distributed_task_platfor.Attempts.{
  finish_attempt, succeed, succeed_task, record_success, record_failure, assigned_text,
}
use distributed_task_platfor.Attempts.Failure.{
  after_failure, failure_decides, while_running, set_held-Returns, may_raise, or_zero,
}
use distributed_task_platfor.Tasks.{compute_retry_delay}
use distributed_task_platfor.Worker.{
  Execution, returned, timed_out, unknown_task_type, raised, claim, finish,
}
use distributed_task_platfor.Worker.Lease.{not_acquired}
use distributed_task_platfor.Worker.Messages.{
  Json, Answer, acked, Delivery, task_id_of, execute, settle, end_with, on_claim, on_id,
  handle_message,
}
use distributed_task_platfor.Invariant.Reach.{Reach, next, finishes, empty_db, Reach-Holds}

-- The row of a task that no message starts.
abbrev NotQueued : ℕ → Db → Type 0
NotQueued id db = (u : Task) × (get_task id db ≡ some u) × ((u.status =? queued) ≡ false)

succeeded :
    (s : Settings) (depth now id n : ℕ) (held : Task) (outcome : String) (t : Task) (db : Db)
    → get_task id db ≡ some t
    → t.status ≡ running
    → blocked db ≤ depth
    → Returns (NotQueued id) (record_success s (suc depth) now id n held outcome db)
unfolding record_success finish_attempt get_task
succeeded s depth now id n held outcome t db g k b =
    let e : t.id ≡ id = id-find id db.tasks t g in
    let db' = finish_attempt id n (succeed now outcome) db in
    let g' : find t.id db.tasks ≡ some t = subst (λ j. find j db.tasks ≡ some t) (sym e) g in
    let u = record t {
      outcome = assigned_text held.outcome (some outcome) t.outcome;
      finished_at = some now;
    } in
    subst (Returns (NotQueued id))
      (sym (
        while_running (find id db.tasks) t (λ v. succeed_task s (suc depth) now held outcome db' v)
          db' g k))
      (subst (λ j. Returns (NotQueued j) (succeed_task s (suc depth) now held outcome db' t)) e
        (unfold succeed_task assign_status in
          Outcome-weaken (λ d. get_task t.id d ≡ some (assign_status now u success))
            (NotQueued t.id) ⊥ _ (λ d h. (assign_status now u success, h, refl))
            (set_held-Returns s depth now held u t success task_succeeded empty db' g' refl k refl
              refl refl b)))

not_queued :
    (s : Settings) (now : ℕ) (error : String) (retryable : Bool) (delay : ℕ) (held t : Task)
    → ((after_failure s now error retryable delay held t).status =? queued) ≡ false
unfolding after_failure assign_status
not_queued s now error false delay held t = refl
not_queued s now error true delay held t = elim (Bool-cases (ltb held.attempts held.max_attempts)) [
  | inl e ↦ rw e refl
  | inr e ↦ rw e refl
]

module _ (s : Settings) (depth now id n : ℕ) (worker : String) (held t : Task) (db : Db)
    (found : get_task id db ≡ some t) (runs : t.status ≡ running)
    (enough : blocked db ≤ depth) where
  -- The backoff is out of the range of a float.
  abbrev Overflow : Type 0
  Overflow = compute_retry_delay s held.attempts ≡ none

  failed_row :
      (error : String) (retryable : Bool)
      → Outcome
          (NotQueued id)
          Overflow
          (record_failure s (suc depth) now id n held error retryable db)
  failed_row error retryable =
      let d = or_zero (compute_retry_delay s held.attempts) in
      let u = after_failure s now (truncate 2000 error) retryable d held t in
      Outcome-weaken (λ d. get_task id d ≡ some u) (NotQueued id) Overflow _
        (λ b h. (u, h, not_queued s now (truncate 2000 error) retryable d held t))
        (failure_decides s depth now id n held error retryable t db found runs enough)

  -- Whatever the handler does, the transaction returns and the task has left the queue, unless the
  -- computation of the backoff raises.
  finished :
      (x : Execution)
      → Outcome (NotQueued id) Overflow (finish s (suc depth) now worker id n held x db)
  unfolding finish
  finished (returned outcome) =
      may_raise (NotQueued id) Overflow (record_success s (suc depth) now id n held outcome db)
        (succeeded s depth now id n held outcome t db found runs enough)
  finished (timed_out error) = failed_row error true
  finished (unknown_task_type error) = failed_row error false
  finished (raised error) = failed_row error true

module _ (loads : String → Option Json) (int : String → Option ℕ) (unknown late : String)
    (s : Settings) where
  abbrev handle : ℕ → Delivery → String → Db → Db × Answer
  handle depth m body db = handle_message loads int unknown late s depth m body db

  -- A message of a task that is not queued is acknowledged, and nothing is written.
  skipped :
      (depth : ℕ) (m : Delivery) (body : String) (id : ℕ) (db : Db)
      → Reach s empty_db db
      → task_id_of loads int unknown late body ≡ some id
      → NotQueued id db
      → handle depth m body db ≡ (db, acked)
  unfolding handle_message
  skipped depth m body id db r i (u, g, q) =
      ap (λ o. on_id loads int unknown late s depth m o db) i
      ∙ ap (on_claim loads int unknown late s depth m id db)
          (not_acquired s depth m.claimed_at m.worker id db u (Reach-Holds s r).distinct g q)

  settled :
      (depth depth' : ℕ) (m m' : Delivery) (body : String) (id n : ℕ) (held : Task) (x : Execution)
      (E : Type 0) (db : Db) (r : Result Db)
      → Reach s empty_db db
      → task_id_of loads int unknown late body ≡ some id
      → NotQueued id db
      → finish s depth m.ended_at m.worker id n held x db ≡ r
      → Outcome (NotQueued id) E r
      → let after = settle loads int unknown late db r in
        ((after.1 ≡ acked) ⊎ E) × (handle depth' m' body after.0 ≡ (after.0, acked))
  settled depth depth' m m' body id n held x E db (ok d) r i q e h = (
    inl refl,
    skipped depth' m' body id d (next r (finishes depth m.ended_at m.worker id n held x e)) i h,
  )
  settled depth depth' m m' body id n held x E db (err e) r i q p h =
      (inr h, skipped depth' m' body id db r i q)

  -- A worker claims the task of a message, and when its handler ends, with whatever result, timeout or
  -- exception and whatever the transactions of others changed meanwhile, the database is one that
  -- transactions lead to, with the task still running. Then the handling of the message ends with its
  -- acknowledgement, unless the computation of the backoff raises for the attempts of the row `held`
  -- that the claim committed; and if the broker delivers the same message again, to any worker with any
  -- handlers, while the tables are as the first handling left them, it is acknowledged and changes
  -- nothing. The bound on the depth of calls is above the number of tasks in `created`.
  pub redelivery_ignored :
      (depth depth' id : ℕ) (m m' : Delivery) (body : String) (a b : Db) (held t : Task)
      → task_id_of loads int unknown late body ≡ some id
      → claim s (suc depth) m.claimed_at m.worker id a ≡ ok (some b)
      → get_task id b ≡ some held
      → Reach s empty_db (m.meanwhile b)
      → get_task id (m.meanwhile b) ≡ some t
      → t.status ≡ running
      → blocked (m.meanwhile b) ≤ depth
      → let after = handle_message loads int unknown late s (suc depth) m body a in
        ((after.1 ≡ acked) ⊎ (compute_retry_delay s held.attempts ≡ none))
        × (handle_message loads int unknown late s depth' m' body after.0 ≡ (after.0, acked))
  unfolding handle_message
  redelivery_ignored depth depth' id m m' body a b held t i c w r g k e =
      let x = execute loads int unknown late m held in
      let n = held.attempts in
      let db = m.meanwhile b in
      let E : Type 0 = compute_retry_delay s held.attempts ≡ none in
      let p : handle (suc depth) m body a
          ≡ settle loads int unknown late db
              (finish s (suc depth) m.ended_at m.worker id n held x db) =
        ap (λ o. on_id loads int unknown late s (suc depth) m o a) i
        ∙ ap (on_claim loads int unknown late s (suc depth) m id a) c
        ∙ ap
            (λ o.
              settle loads int unknown late db
                (end_with loads int unknown late s (suc depth) m id db o))
            w in
      subst (λ (w : Db × Answer). ((w.1 ≡ acked) ⊎ E) × (handle depth' m' body w.0 ≡ (w.0, acked)))
        (sym p)
        (settled (suc depth) depth' m m' body id n held x E db _ r i (t, g, rw k refl) refl
          (finished s depth m.ended_at id n m.worker held t db g k e x))
