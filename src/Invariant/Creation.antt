-- ===== src/Invariant/Creation.antt =====
-- Creation, manual retry and cancellation keep the invariant.
use distributed_task_platfor.Prelude.{
  ℕ, String, ◌≡◌, refl, ap, ◌∙◌, true, false, Option, none, some, List, [], ◌∷◌, arith, Bool-cases,
  Option-cases, inl, inr, is_some, member,
}
use distributed_task_platfor.Model.Status.{
  Status, created, queued, running, scheduled, cancelled, task_cancelled, EventType, task_created,
  task_queued, task_scheduled, task_blocked, task_retried, ◌=?◌, elem, retryable, cancelable,
}
use distributed_task_platfor.Model.Rows.{
  Task, Details, Message, empty, attempts_so_far, waiting_for,
}
use distributed_task_platfor.Model.Settings.{Settings}
use distributed_task_platfor.Model.Db.{Db, find, get_task, add_outbox}
use distributed_task_platfor.Model.Result.{Result, ok, err, Ensures, Outcome-bind, ◌>>=◌}
use distributed_task_platfor.StatusChange.{record_event, task_message, set_status}
use distributed_task_platfor.StatusChange.Induction.{get_task-id}
use distributed_task_platfor.Dependencies.{
  register_dependencies, register_if_found, ensure_no_cycle, add_edges, dedup_seen, missing,
}
use distributed_task_platfor.Scheduler.{due_statuses}
use distributed_task_platfor.Tasks.Naive.{comparable-Ensures}
use distributed_task_platfor.Tasks.{
  is_naive, TaskSpec, new_task, insert_task, has_key, is_future, enqueue, place_task, create_task,
  republish, retry_task, manual_retry, cancel_row, cancel_task,
}
use distributed_task_platfor.Invariant.{IsSettled, Holds}
use distributed_task_platfor.Invariant.Primitives.{
  insert-Invariant, note-Invariant, find_above, find-append,
}
use distributed_task_platfor.Invariant.Steps.{
  IsReady, assign-IsSettled, IsSettled-find, set_status-Holds,
}

module _ (s : Settings) (now : ℕ) where
  -- A task whose row is settled is ready for a status that is neither running nor waiting.
  pub settled-IsReady :
      (t : Task) (new : Status)
      → IsSettled s t
      → (new =? running) ≡ false
      → (elem new due_statuses ≡ true → is_some t.scheduled_at ≡ true)
      → IsReady s t new
  settled-IsReady t new r n w = record {
    not_running = n;
    waiting = w;
    owner = r.owner;
    lease = r.lease;
    cycles = r.cycles;
  }

  new_task-IsSettled : (spec : TaskSpec) (id : ℕ) → IsSettled s (new_task s now spec id)
  unfolding new_task
  new_task-IsSettled spec id = ground arith

  -- A settled task that becomes neither running nor waiting.
  pub settle-Holds :
      (key : String) (depth : ℕ) (t : Task) (new : Status) (e : EventType) (d : Details) (db : Db)
      → Holds s db
      → get_task t.id db ≡ some t
      → (t.status =? new) ≡ false
      → (new =? running) ≡ false
      → (elem new due_statuses ≡ true → is_some t.scheduled_at ≡ true)
      → Ensures (Holds s) (set_status depth key now t new e d db)
  settle-Holds key depth t new e d db h g n r w =
      set_status-Holds s now key depth t t new e d db h g refl n (
        assign-IsSettled s now t new
          (settled-IsReady t new (IsSettled-find s now t.id t db h g) r w))

  edges_if_clear :
      (P : Db → Type 0) (r : Result (Unit {0})) (db : Db) → P db → Ensures P (r >>= λ _. ok db)
  edges_if_clear P (ok u) db h = h
  edges_if_clear P (err e) db h = tt

  found-Ensures :
      (P : Db → Type 0) (absent : List ℕ) (id : ℕ) (ps : List ℕ) (db : Db)
      → P (add_edges id ps db)
      → Ensures P (register_if_found absent id ps db)
  unfolding register_if_found
  found-Ensures P (_ ∷ _) id ps db h = tt
  found-Ensures P [] id ps db h = edges_if_clear P (ensure_no_cycle id ps db) (add_edges id ps db) h

  pub register-Ensures :
      (P : Db → Type 0) (id : ℕ) (ps : List ℕ) (db : Db)
      → ((es : List ℕ) → P (add_edges id es db))
      → Ensures P (register_dependencies id ps db)
  unfolding register_dependencies
  register-Ensures P id ps db h = elim (Bool-cases (member id (dedup_seen [] ps))) [
    | inl e ↦ rw e tt
    | inr e ↦ rw e (
        found-Ensures P (missing (dedup_seen [] ps) db) id (dedup_seen [] ps) db
          (h (dedup_seen [] ps)))
  ]

  -- A message is added after an operation.
  pub then_outbox-Holds :
      (key : String) (m : Message) (r : Result Db)
      → Ensures (Holds s) r
      → Ensures (Holds s) (r >>= λ db. ok (add_outbox key m db))
  unfolding add_outbox
  then_outbox-Holds key m (ok db) h = h
  then_outbox-Holds key m (err e) h = tt

  place-Holds :
      (depth : ℕ) (t : Task) (ps : List ℕ) (db : Db)
      → Holds s db
      → get_task t.id db ≡ some t
      → t.status ≡ created
      → Ensures (Holds s) (place_task s depth now t ps db)
  unfolding place_task
  place-Holds depth t (p ∷ ps) db h g c =
      Outcome-bind (λ db'. (db'.tasks ≡ db.tasks) × Holds s db') (Holds s) Unit
        (register_dependencies t.id (p ∷ ps) db) _
        (register-Ensures _ t.id (p ∷ ps) db (λ es. unfold add_edges in (refl, h)))
        (λ db' k.
          unfold record_event in
          note-Invariant s k.1 t t task_blocked created (waiting_for (p ∷ ps))
            (ap (find t.id) k.0 ∙ unfold get_task in g) refl c)
  place-Holds depth t [] db h g c = elim (Bool-cases (is_future now t.scheduled_at)) [
    | inl e ↦ rw e (
        settle-Holds s.routing_key_task_created depth t scheduled task_scheduled empty db h g (rw c)
          refl (λ _. ground arith))
    | inr e ↦ rw e (
        unfold enqueue in
        then_outbox-Holds s.routing_key_task_created (task_message t false) _ (
          settle-Holds s.routing_key_task_created depth t queued task_queued empty db h g (rw c)
            refl (λ w. absurd (cc))))
  ]

  insert-Holds :
      (t : Task) (e : EventType) (d : Details) (db : Db)
      → Holds s db
      → t.id ≡ db.next_task_id
      → t.status ≡ created
      → IsSettled s t
      → Ensures
          (λ db'.
            Holds s (record_event t e created d db')
            × (get_task t.id (record_event t e created d db') ≡ some t))
          (insert_task t db)
  unfolding insert_task record_event get_task
  insert-Holds t e d db h p c r = elim (Bool-cases (has_key t.idempotency_key db.tasks)) [
    | inl k ↦ rw k tt
    | inr k ↦ rw k (
      insert-Invariant s h t e d p c r,
      rw (find-append t.id t db.tasks)
          (ground (arith, find_above db.next_task_id t.id db.tasks h.ids)),
    )
  ]

  pub create_task-Holds :
      (depth : ℕ) (spec : TaskSpec) (db : Db)
      → Holds s db
      → Ensures (Holds s) (create_task s depth now spec db)
  unfolding create_task
  create_task-Holds depth spec db h =
      let t = new_task s now spec db.next_task_id in
      Outcome-bind
        (λ db'.
          Holds s (record_event t task_created created empty db')
          × (get_task t.id (record_event t task_created created empty db') ≡ some t))
        (Holds s) Unit (insert_task t db) _
        (insert-Holds t task_created empty db h (unfold new_task in refl) (unfold new_task in refl)
          (new_task-IsSettled spec db.next_task_id))
        (λ db' k.
          comparable-Ensures (Holds s) (is_naive spec) spec.depends_on _
            (place-Holds depth t spec.depends_on _ k.0 k.1 (unfold new_task in refl)))

  retry_task-Holds :
      (depth : ℕ) (t : Task) (db : Db)
      → Holds s db
      → get_task t.id db ≡ some t
      → Ensures (Holds s) (retry_task s depth now t db)
  unfolding retry_task republish
  retry_task-Holds depth t db h g = elim (Bool-cases (elem t.status retryable)) [
    | inr e ↦ rw e tt
    | inl e ↦ rw e (
        then_outbox-Holds s.routing_key_task_created (task_message t true) _ (
          settle-Holds s.routing_key_task_created depth t queued task_retried
            (attempts_so_far t.attempts) db h g (ground arith) refl (λ w. absurd (cc))))
  ]

  cancel_row-Holds :
      (depth : ℕ) (t : Task) (db : Db)
      → Holds s db
      → get_task t.id db ≡ some t
      → Ensures (Holds s) (cancel_row s depth now t db)
  unfolding cancel_row
  cancel_row-Holds depth t db h g = elim (Bool-cases (elem t.status cancelable)) [
    | inr e ↦ rw e tt
    | inl e ↦ rw e (
        settle-Holds s.routing_key_task_created depth t cancelled task_cancelled empty db h g
          (ground arith) refl (λ w. absurd (cc)))
  ]

  -- The database after an operation that may find no task.
  abbrev pub HoldsIf : Option Db → Type 0
  HoldsIf none = Unit
  HoldsIf (some db) = Holds s db

  pub some-Holds :
      (r : Result Db) → Ensures (Holds s) r → Ensures HoldsIf (r >>= λ db. ok (some db))
  some-Holds (ok db) h = h
  some-Holds (err e) h = tt

  pub manual_retry-Holds :
      (depth id : ℕ) (db : Db) → Holds s db → Ensures HoldsIf (manual_retry s depth now id db)
  unfolding manual_retry
  manual_retry-Holds depth id db h = elim (Option-cases (get_task id db)) [
    | inl e ↦ rw (e, manual_retry) tt
    | inr (t, e) ↦
        rw (e, manual_retry) (some-Holds _ (retry_task-Holds depth t db h (get_task-id id db t e)))
  ]

  pub cancel_task-Holds :
      (depth id : ℕ) (db : Db) → Holds s db → Ensures HoldsIf (cancel_task s depth now id db)
  unfolding cancel_task
  cancel_task-Holds depth id db h = elim (Option-cases (get_task id db)) [
    | inl e ↦ rw (e, cancel_task) tt
    | inr (t, e) ↦
        rw (e, cancel_task) (some-Holds _ (cancel_row-Holds depth t db h (get_task-id id db t e)))
  ]
