-- ===== src/StatusChange/Induction.antt =====
-- A property of the database that the changes of blocked children keep is kept by every change of
-- status, at any depth of the graph of dependencies.
use mathlib.Core.Path.{subst}
use distributed_task_platfor.Prelude.{
  ℕ, zero, suc, String, ◌≡◌, refl, sym, true, false, Option, none, some, List, [], ◌∷◌, inl, inr,
  Bool-cases, if◌then◌else◌,
}
use distributed_task_platfor.Model.Status.{
  Status, created, queued, success, cancelled, eq_of_=?, EventType, task_unblocked, task_cancelled,
  ◌=?◌, elem, terminal, can_transition,
}
use distributed_task_platfor.Model.Rows.{Task, Details, unblocked_by, parent_terminal}
use distributed_task_platfor.Model.Db.{Db, find, get_task, add_outbox}
use distributed_task_platfor.Model.Db.Rows.{id-find}
use distributed_task_platfor.Model.Result.{
  Result, ok, err, invalid_transition, Outcome, Ensures, Outcome-bind,
}
use distributed_task_platfor.StatusChange.{
  assign_status, change, task_message, all_parents_succeeded, catch_invalid, SetStatus, unblock,
  cancel_blocked, advance_child, advance_each, advance_children, after_change, set_status,
}

-- The task of a row that a query by its id returned.
pub get_task-id : (i : ℕ) (db : Db) (t : Task) → get_task i db ≡ some t → get_task t.id db ≡ some t
unfolding get_task
get_task-id i db t h = subst (λ j. find j db.tasks ≡ some t) (sym (id-find i db.tasks t h)) h

-- The loop over the children, for a property of the result and one of its errors.
module _ (key : String) (P : Db → Type 0) (E : Type 0) where
  pub catch_invalid-Outcome :
      (db : Db) (r : Result Db) → P db → Outcome P E r → Outcome P E (catch_invalid db r)
  catch_invalid-Outcome db (ok db') h k = k
  catch_invalid-Outcome db (err invalid_transition) h k = h
  catch_invalid-Outcome db (err _) h k = k

  child-Outcome :
      (set : SetStatus) (t : Task) (db : Db) (o : Option Task)
      → ((c : Task) → o ≡ some c → get_task c.id db ≡ some c)
      → ((c : Task)
          → get_task c.id db ≡ some c
          → c.status ≡ created
          → Outcome P E (unblock key set c t.id db)
            × Outcome P E (cancel_blocked set c t.id t.status db))
      → P db
      → Outcome P E (advance_child key set t o db)
  unfolding advance_child
  child-Outcome set t db none g k h = h
  child-Outcome set t db (some c) g k h = elim (Bool-cases (c.status =? created)) [
    | inr e ↦ rw e h
    | inl e ↦ rw e (blocked (k c (g c refl) (eq_of_=? c.status created e)))
  ]
    where
      blocked :
          Outcome P E (unblock key set c t.id db)
            × Outcome P E (cancel_blocked set c t.id t.status db)
          → Outcome P E (
              if t.status =? success
              then (if all_parents_succeeded c.id db then unblock key set c t.id db else ok db)
              else cancel_blocked set c t.id t.status db)
      blocked p = elim (Bool-cases (t.status =? success)) [
        | inr e ↦ rw e p.1
        | inl e ↦ elim (Bool-cases (all_parents_succeeded c.id db)) [
          | inl a ↦ rw (e, a) p.0
          | inr a ↦ rw (e, a) h
        ]
      ]

  pub each-Outcome :
      (set : SetStatus)
      → ((c : Task) (by : ℕ) (s : Status) (db : Db)
          → get_task c.id db ≡ some c
          → c.status ≡ created
          → P db
          → Outcome P E (unblock key set c by db) × Outcome P E (cancel_blocked set c by s db))
      → (t : Task) (cs : List ℕ) (db : Db) → P db
      → Outcome P E (advance_each key set t cs db)
  unfolding advance_each
  each-Outcome set k t [] db h = h
  each-Outcome set k t (c ∷ cs) db h =
      Outcome-bind P P E (advance_child key set t (get_task c db) db) (advance_each key set t cs)
        (child-Outcome set t db (get_task c db) (λ u. get_task-id c db u)
          (λ u g s. k u t.id t.status db g s h) h)
        (λ db' h'. each-Outcome set k t cs db' h')

-- A permitted change to another status is the change itself, and then the children's.
pub set_status_permitted :
    (depth : ℕ) (key : String) (now : ℕ) (t : Task) (new : Status) (e : EventType) (d : Details)
    (db : Db)
    → (t.status =? new) ≡ false
    → can_transition t.status new ≡ true
    → set_status (suc depth) key now t new e d db
      ≡ after_change key
          (set_status depth key now)
          (assign_status now t new)
          new
          (change now t new e d db)
unfolding set_status
set_status_permitted depth key now t new e d db h k = rw (h, k)

module _ (key : String) (now : ℕ) (P : Db → Type 0)
    (keep_cancel : (t : Task) (d : Details) (db : Db)
      → get_task t.id db ≡ some t
      → t.status ≡ created
      → P db
      → P (change now t cancelled task_cancelled d db))
    (keep_unblock : (t : Task) (d : Details) (db : Db)
      → get_task t.id db ≡ some t
      → t.status ≡ created
      → P db
      → P (add_outbox key (task_message t false) (change now t queued task_unblocked d db))) where
  unblock-Ensures :
      (depth : ℕ) (t : Task) (by : ℕ) (db : Db)
      → get_task t.id db ≡ some t
      → t.status ≡ created
      → P db
      → Ensures P (unblock key (set_status depth key now) t by db)
  unfolding unblock set_status after_change
  unblock-Ensures zero t by db g s h = tt
  unblock-Ensures (suc depth) t by db g s h =
      rw
        (set_status_permitted depth key now t queued task_unblocked (unblocked_by by) db (rw s)
          (rw s))
        (keep_unblock t (unblocked_by by) db g s h)

  cancel-Ensures :
      (depth : ℕ) (t : Task) (by : ℕ) (s : Status) (db : Db)
      → get_task t.id db ≡ some t
      → t.status ≡ created
      → P db
      → Ensures P (cancel_blocked (set_status depth key now) t by s db)
  unfolding cancel_blocked after_change advance_children
  cancel-Ensures zero t by s db g c h = unfold set_status in tt
  cancel-Ensures (suc depth) t by s db g c h = catch_invalid-Outcome key P Unit db _ h (
      rw
        (set_status_permitted depth key now t cancelled task_cancelled (parent_terminal by s) db
          (rw c) (rw c))
        (each-Outcome key P Unit (set_status depth key now)
          (λ u by' s' db' g' c' h'.
            (unblock-Ensures depth u by' db' g' c' h', cancel-Ensures depth u by' s' db' g' c' h'))
          (assign_status now t cancelled) _ _ (keep_cancel t (parent_terminal by s) db g c h)))

  pub advance_each-Ensures :
      (depth : ℕ) (t : Task) (cs : List ℕ) (db : Db)
      → P db
      → Ensures P (advance_each key (set_status depth key now) t cs db)
  advance_each-Ensures depth t cs db h =
      each-Outcome key P Unit (set_status depth key now)
        (λ u by s db' g c h'.
          (unblock-Ensures depth u by db' g c h', cancel-Ensures depth u by s db' g c h'))
        t cs db h

  pub after_change-Ensures :
      (depth : ℕ) (t : Task) (new : Status) (db : Db)
      → P db
      → Ensures P (after_change key (set_status depth key now) t new db)
  unfolding after_change advance_children
  after_change-Ensures depth t new db h = elim (Bool-cases (elem new terminal)) [
    | inr e ↦ rw e h
    | inl e ↦ rw e (advance_each-Ensures depth t _ db h)
  ]

  -- A permitted change of status keeps `P` if the change of the task's own row does.
  pub set_status-Ensures :
      (depth : ℕ) (t : Task) (new : Status) (e : EventType) (d : Details) (db : Db)
      → (t.status =? new) ≡ false
      → (can_transition t.status new ≡ true → P (change now t new e d db))
      → Ensures P (set_status depth key now t new e d db)
  set_status-Ensures zero t new e d db n h = unfold set_status in tt
  set_status-Ensures (suc depth) t new e d db n h =
      elim (Bool-cases (can_transition t.status new)) [
        | inl k ↦
            rw (set_status_permitted depth key now t new e d db n k)
              (after_change-Ensures depth (assign_status now t new) new _ (h k))
        | inr k ↦ unfold set_status in rw (n, k) tt
      ]
