-- ===== src/Invariant/Steps.antt =====
-- The invariant under `set_status`.
use distributed_task_platfor.Prelude.{
  ℕ, String, ◌≤◌, ◌≡◌, refl, true, false, some, arith, or_right, is_some,
}
use distributed_task_platfor.Model.Status.{
  Status, queued, running, cancelled, EventType, task_unblocked, task_cancelled, ◌=?◌, elem,
  can_transition,
}
use distributed_task_platfor.Model.Rows.{Task, Details}
use distributed_task_platfor.Model.Settings.{Settings}
use distributed_task_platfor.Model.Db.{Db, get_task, put_task, add_outbox}
use distributed_task_platfor.Model.Db.Rows.{All-find}
use distributed_task_platfor.Model.Result.{Ensures}
use distributed_task_platfor.StatusChange.{assign_status, record_event, change, set_status}
use distributed_task_platfor.StatusChange.Frame.{change-frame}
use distributed_task_platfor.StatusChange.Induction.{set_status-Ensures}
use distributed_task_platfor.Scheduler.{due_statuses}
use distributed_task_platfor.Invariant.{IsSettled, Holds}
use distributed_task_platfor.Invariant.Primitives.{change-Invariant}

-- What `set_status` needs of the task that it is given, for a change to a status but `running`.
pub record IsReady (s : Settings) (t : Task) (new : Status) : Type 0 where
  pub not_running : (new =? running) ≡ false
  pub waiting : elem new due_statuses ≡ true → is_some t.scheduled_at ≡ true
  pub owner : is_some t.lease_owner ≡ (t.status =? running)
  pub lease : is_some t.lease_expires_at ≡ (t.status =? running)
  pub cycles : t.dlq_requeue_count ≤ s.dlq_retry_max_cycles

module _ (s : Settings) (now : ℕ) where
  pub assign-IsSettled :
      (t : Task) (new : Status) → IsReady s t new → IsSettled s (assign_status now t new)
  unfolding assign_status
  assign-IsSettled t new r = record {
    finished = λ e. ground arith;
    unfinished = λ e. ground arith;
    unscheduled = λ e. ground arith;
    waiting = λ e. ground (arith, r.waiting e);
    started = λ e. ground arith;
    owner = ground (arith, r.owner, r.not_running);
    lease = ground (arith, r.lease, r.not_running);
    cycles = r.cycles;
  }

  pub change-Holds :
      (t u : Task) (new : Status) (e : EventType) (d : Details) (db : Db)
      → Holds s db
      → get_task t.id db ≡ some u
      → u.status ≡ t.status
      → can_transition t.status new ≡ true
      → IsSettled s (assign_status now t new)
      → Holds s (change now t new e d db)
  unfolding get_task put_task record_event assign_status
  change-Holds t u new e d db h g k c r =
      let f = change-frame now t new e d db in
      rw (f.tasks, f.events, f.next_task_id)
        (change-Invariant s h t u (assign_status now t new) e new d g k (or_right _ _ c) refl refl
          r)

  pub IsSettled-find :
      (i : ℕ) (t : Task) (db : Db) → Holds s db → get_task i db ≡ some t → IsSettled s t
  unfolding get_task
  IsSettled-find i t db h g = All-find (IsSettled s) i db.tasks t h.settled g

  -- A blocked task is ready for both changes that its parents bring about.
  blocked-IsReady :
      (t : Task) (new : Status) (db : Db)
      → Holds s db
      → get_task t.id db ≡ some t
      → (new =? running) ≡ false
      → elem new due_statuses ≡ false
      → IsReady s t new
  blocked-IsReady t new db h g n w =
      let r = IsSettled-find t.id t db h g in
      record {
        not_running = n;
        waiting = λ e. absurd (cc);
        owner = r.owner;
        lease = r.lease;
        cycles = r.cycles;
      }

  -- `set_status` keeps the invariant, whatever the depth of the calls.
  pub set_status-Holds :
      (key : String) (depth : ℕ) (t u : Task) (new : Status) (e : EventType) (d : Details) (db : Db)
      → Holds s db
      → get_task t.id db ≡ some u
      → u.status ≡ t.status
      → (t.status =? new) ≡ false
      → IsSettled s (assign_status now t new)
      → Ensures (Holds s) (set_status depth key now t new e d db)
  set_status-Holds key depth t u new e d db h g k n r =
      set_status-Ensures key now (Holds s)
        (λ c d' db' g' c' h'.
          change-Holds c c cancelled task_cancelled d' db' h' g' refl (rw c')
            (assign-IsSettled c cancelled (blocked-IsReady c cancelled db' h' g' refl refl)))
        (λ c d' db' g' c' h'.
          unfold add_outbox in
          change-Holds c c queued task_unblocked d' db' h' g' refl (rw c')
            (assign-IsSettled c queued (blocked-IsReady c queued db' h' g' refl refl)))
        depth t new e d db n (λ c. change-Holds t u new e d db h g k c r)
