-- ===== src/StatusChange/Children.antt =====
-- What `set_status` leaves of the task and that it returns.
use mathlib.Core.Path.{subst}
use distributed_task_platfor.Prelude.{
  ℕ, suc, ◌≤◌, String, ◌≡◌, sym, ap, ◌∙◌, true, false, some, arith, inl, inr, Bool-cases, ◌==◌,
  ==_iff,
}
use distributed_task_platfor.Model.Status.{
  Status, created, queued, cancelled, EventType, task_unblocked, task_cancelled, ◌=?◌,
  can_transition,
}
use distributed_task_platfor.Model.Rows.{Task, Details}
use distributed_task_platfor.Model.Db.{Db, find, get_task, put_task, add_outbox}
use distributed_task_platfor.Model.Db.Rows.{find-replace, find-replace_self}
use distributed_task_platfor.Model.Result.{Result, ok, err, Ensures, Returns}
use distributed_task_platfor.StatusChange.{
  assign_status, record_event, change, after_change, set_status,
}
use distributed_task_platfor.StatusChange.Frame.{change-frame}
use distributed_task_platfor.StatusChange.Induction.{set_status_permitted, after_change-Ensures}
use distributed_task_platfor.StatusChange.Total.{blocked, after_change-Returns}

-- A row after a change of another task.
pub find-change_ne :
    (now : ℕ) (t : Task) (new : Status) (e : EventType) (d : Details) (db : Db) (i : ℕ)
    → (t.id == i) ≡ false
    → get_task i (change now t new e d db) ≡ get_task i db
unfolding get_task put_task record_event
find-change_ne now t new e d db i n =
    ap (find i) ((change-frame now t new e d db).tasks)
    ∙ find-replace i (assign_status now t new) db.tasks
    ∙ unfold assign_status in rw n

pub find-change_self :
    (now : ℕ) (t u : Task) (new : Status) (e : EventType) (d : Details) (db : Db)
    → get_task t.id db ≡ some u
    → get_task t.id (change now t new e d db) ≡ some (assign_status now t new)
unfolding get_task put_task record_event assign_status
find-change_self now t u new e d db g =
    ap (find t.id) ((change-frame now t new e d db).tasks)
    ∙ find-replace_self (assign_status now t new) db.tasks g

-- What a permitted transition is not.
pub permitted_ne :
    (a b : Status) → can_transition a b ≡ true → ((b =? created) ≡ false) × ((a =? b) ≡ false)
permitted_ne a b h = ground arith

-- A row that is not blocked is not touched by the advance of other tasks' children.
module _ (i : ℕ) (row : Task) (unblocked : (row.status =? created) ≡ false) where
  abbrev Stays : Db → Type 0
  Stays db = get_task i db ≡ some row

  change-Stays :
      (now : ℕ) (t : Task) (new : Status) (e : EventType) (d : Details) (db : Db)
      → get_task t.id db ≡ some t
      → t.status ≡ created
      → Stays db
      → Stays (change now t new e d db)
  change-Stays now t new e d db g c h = elim (Bool-cases (t.id == i)) [
    | inr n ↦ find-change_ne now t new e d db i n ∙ h
    | inl p ↦
        let q : some t ≡ some row =
          sym g ∙ subst (λ j. get_task j db ≡ some row) (sym ((==_iff t.id i).0 p)) h in
        let r : t ≡ row = cc q in
        let a : (row.status =? created) ≡ true = ap (λ u. u.status =? created) (sym r) ∙ rw c in
        absurd (cc (a, unblocked))
  ]

  pub after_change-Stays :
      (key : String) (now depth : ℕ) (t : Task) (new : Status) (db : Db)
      → Stays db
      → Ensures Stays (after_change key (set_status depth key now) t new db)
  after_change-Stays key now depth t new db h =
      after_change-Ensures key now Stays
        (λ u d a g c k. change-Stays now u cancelled task_cancelled d a g c k)
        (λ u d a g c k.
          unfold add_outbox get_task in change-Stays now u queued task_unblocked d a g c k)
        depth t new db h

pub Outcome-both :
    (P Q : Db → Type 0) (r : Result Db) → Ensures P r → Returns Q r → Returns (λ db. P db × Q db) r
Outcome-both P Q (ok db) h k = (h, k)
Outcome-both P Q (err e) h k = k

-- A permitted change of status returns, for every task and every graph of dependencies, if the bound
-- on the depth of the calls is above the number of tasks in `created` after the change. The row of
-- the task is then the one that `assign_status` gives, and no task has become blocked.
pub set_status-Returns :
    (key : String) (now depth : ℕ) (t u : Task) (new : Status) (e : EventType) (d : Details)
    (db : Db)
    → get_task t.id db ≡ some u
    → can_transition t.status new ≡ true
    → blocked (change now t new e d db) ≤ depth
    → Returns
        (λ db'.
          (get_task t.id db' ≡ some (assign_status now t new))
          × (blocked db' ≤ blocked (change now t new e d db)))
        (set_status (suc depth) key now t new e d db)
set_status-Returns key now depth t u new e d db g c h =
    let b = permitted_ne t.status new c in
    rw (set_status_permitted depth key now t new e d db b.1 c) (
      Outcome-both (λ db'. get_task t.id db' ≡ some (assign_status now t new))
        (λ db'. blocked db' ≤ blocked (change now t new e d db)) _
        (after_change-Stays t.id (assign_status now t new) (unfold assign_status in b.0) key now
          depth (assign_status now t new) new (change now t new e d db)
          (find-change_self now t u new e d db g))
        (after_change-Returns key now depth (assign_status now t new) new (change now t new e d db)
          h))
