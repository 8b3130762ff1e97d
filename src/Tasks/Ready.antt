-- ===== src/Tasks/Ready.antt =====
-- A task that is created without parents, `create_task` of backend/app/services/tasks.py.
use mathlib.Core.Path.{subst}
use distributed_task_platfor.Prelude.{
  ℕ, suc, ◌≡◌, refl, sym, ap, ◌∙◌, String, Bool, true, false, some, List, [], ◌∷◌, ◌++◌, inl, inr,
  Bool-cases, if◌then◌else◌,
}
use distributed_task_platfor.Model.Status.{
  Status, created, queued, scheduled, EventType, task_queued, task_scheduled, ◌=?◌, elem, terminal,
  can_transition,
}
use distributed_task_platfor.Model.Rows.{Task, Message, Details, empty, OutboxEvent}
use distributed_task_platfor.Model.Settings.{Settings}
use distributed_task_platfor.Model.Db.{Db, get_task, put_task, add_outbox}
use distributed_task_platfor.Model.Result.{Result, ok, Returns, ◌>>=◌}
use distributed_task_platfor.StatusChange.{
  assign_status, record_event, change, set_status, after_change, task_message,
}
use distributed_task_platfor.StatusChange.Frame.{change-frame}
use distributed_task_platfor.StatusChange.Induction.{set_status_permitted}
use distributed_task_platfor.StatusChange.Children.{find-change_self}
use distributed_task_platfor.Tasks.{
  is_naive, TaskSpec, new_task, insert_task, has_key, is_future, place_task, enqueue, create_task,
}
use distributed_task_platfor.Tasks.Blocked.{find-new}
use distributed_task_platfor.Invariant.Reach.{Reach, empty_db, Reach-Holds}

-- A change to a status that is not terminal ends with the change itself.
changed :
    (depth now : ℕ) (key : String) (t : Task) (new : Status) (e : EventType) (d : Details) (db : Db)
    → (t.status =? new) ≡ false
    → can_transition t.status new ≡ true
    → elem new terminal ≡ false
    → set_status (suc depth) key now t new e d db ≡ ok (change now t new e d db)
unfolding after_change
changed depth now key t new e d db n c m =
    set_status_permitted depth key now t new e d db n c ∙ rw m refl

-- The messages in the outbox, in their order.
abbrev pub messages : List OutboxEvent → List Message
messages [] = []
messages (o ∷ os) = o.payload ∷ messages os

messages-append :
    (os : List OutboxEvent) (o : OutboxEvent)
    → messages (os ++ o ∷ []) ≡ (messages os ++ o.payload ∷ [])
messages-append [] o = refl
messages-append (x ∷ os) o = ap (λ ms. x.payload ∷ ms) (messages-append os o)

-- The row and the messages that a new task is to have.
abbrev pub IsPlaced : ℕ → Task → Db → Db → Type 0
IsPlaced now t a b =
    (get_task t.id b
      ≡ some (assign_status now t (if is_future now t.scheduled_at then scheduled else queued)))
    × (messages b.outbox ≡ (
        if is_future now t.scheduled_at
        then messages a.outbox
        else messages a.outbox ++ task_message t false ∷ []))

change-outbox :
    (now : ℕ) (t : Task) (new : Status) (e : EventType) (d : Details) (db : Db)
    → (change now t new e d db).outbox ≡ db.outbox
unfolding put_task record_event
change-outbox now t new e d db = (change-frame now t new e d db).outbox

queued-outbox :
    (key : String) (now : ℕ) (t : Task) (db : Db)
    → messages
        (add_outbox key (task_message t false) (change now t queued task_queued empty db)).outbox
      ≡ (messages db.outbox ++ task_message t false ∷ [])
unfolding add_outbox
queued-outbox key now t db =
    messages-append (change now t queued task_queued empty db).outbox _
    ∙ ap (λ os. messages os ++ task_message t false ∷ [])
        (change-outbox now t queued task_queued empty db)

pub scheduled-run :
    (s : Settings) (depth now : ℕ) (t : Task) (db : Db)
    → t.status ≡ created
    → is_future now t.scheduled_at ≡ true
    → place_task s (suc depth) now t [] db ≡ ok (change now t scheduled task_scheduled empty db)
unfolding place_task
scheduled-run s depth now t db c e =
    ap
      (λ f.
        if f
        then set_status (suc depth) s.routing_key_task_created now t scheduled task_scheduled empty
            db
        else enqueue s (suc depth) now t db)
      e
    ∙ changed depth now s.routing_key_task_created t scheduled task_scheduled empty db (rw c refl)
        (rw c refl) refl

pub queued-run :
    (s : Settings) (depth now : ℕ) (t : Task) (db : Db)
    → t.status ≡ created
    → is_future now t.scheduled_at ≡ false
    → place_task s (suc depth) now t [] db
      ≡ ok (
          add_outbox s.routing_key_task_created
            (task_message t false)
            (change now t queued task_queued empty db))
unfolding place_task enqueue
queued-run s depth now t db c e =
    let key = s.routing_key_task_created in
    ap
      (λ f.
        if f
        then set_status (suc depth) key now t scheduled task_scheduled empty db
        else enqueue s (suc depth) now t db)
      e
    ∙ ap (λ (r : Result Db). r >>= λ a. ok (add_outbox key (task_message t false) a))
        (changed depth now key t queued task_queued empty db (rw c refl) (rw c refl) refl)

-- The row and the messages on one branch, where the test on the time is known.
IsPlaced-by :
    (now : ℕ) (t : Task) (a b : Db) (f : Bool)
    → is_future now t.scheduled_at ≡ f
    → get_task t.id b ≡ some (assign_status now t (if f then scheduled else queued))
    → messages b.outbox
      ≡ (if f then messages a.outbox else messages a.outbox ++ task_message t false ∷ [])
    → IsPlaced now t a b
IsPlaced-by now t a b f e g m = (
  g ∙ ap (λ x. some (assign_status now t (if x then scheduled else queued))) (sym e),
  m
      ∙ ap (λ x. if x then messages a.outbox else messages a.outbox ++ task_message t false ∷ [])
          (sym e),
)

queued-row :
    (key : String) (now : ℕ) (t : Task) (db : Db)
    → get_task t.id db ≡ some t
    → get_task t.id
        (add_outbox key (task_message t false) (change now t queued task_queued empty db))
      ≡ some (assign_status now t queued)
unfolding get_task add_outbox
queued-row key now t db g = find-change_self now t t queued task_queued empty db g

placed :
    (s : Settings) (depth now : ℕ) (t : Task) (db : Db)
    → get_task t.id db ≡ some t
    → t.status ≡ created
    → Returns (IsPlaced now t db) (place_task s (suc depth) now t [] db)
placed s depth now t db g c =
    let key = s.routing_key_task_created in
    elim (Bool-cases (is_future now t.scheduled_at)) [
      | inl e ↦ subst (Returns (IsPlaced now t db)) (sym (scheduled-run s depth now t db c e)) (
          IsPlaced-by now t db (change now t scheduled task_scheduled empty db) true e
            (find-change_self now t t scheduled task_scheduled empty db g)
            (ap messages (change-outbox now t scheduled task_scheduled empty db)))
      | inr e ↦ subst (Returns (IsPlaced now t db)) (sym (queued-run s depth now t db c e)) (
          IsPlaced-by now t db
            (add_outbox key (task_message t false) (change now t queued task_queued empty db)) false
            e (queued-row key now t db g) (queued-outbox key now t db))
    ]

without_parents :
    (s : Settings) (depth now : ℕ) (t : Task) (parents : List ℕ) (db : Db)
    → parents ≡ []
    → get_task t.id db ≡ some t
    → t.status ≡ created
    → Returns (IsPlaced now t db) (place_task s (suc depth) now t parents db)
without_parents s depth now t parents db e g c =
    subst (λ ps. Returns (IsPlaced now t db) (place_task s (suc depth) now t ps db)) (sym e)
      (placed s depth now t db g c)

-- In every database that transactions lead to: a task that is created without parents, and with no
-- idempotency key or one that no task has, and no time or one with a time zone, is created, with no need for a deeper bound on the calls.
-- It is stored in `scheduled` with no message if its time is after the present, and otherwise in
-- `queued` with one message for the workers at the end of the outbox.
pub created_ready :
    (s : Settings) (depth now : ℕ) (spec : TaskSpec) (a : Db)
    → Reach s empty_db a
    → spec.depends_on ≡ []
    → has_key spec.idempotency_key a.tasks ≡ false
    → is_naive spec ≡ false
    → Returns
        (IsPlaced now (new_task s now spec a.next_task_id) a)
        (create_task s (suc depth) now spec a)
unfolding create_task insert_task record_event get_task new_task
created_ready s depth now spec a r d k z =
    rw (k, z)
      (without_parents s depth now (new_task s now spec a.next_task_id) spec.depends_on _ d
        (find-new s now spec a (Reach-Holds s r)) refl)
