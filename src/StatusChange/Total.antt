-- ===== src/StatusChange/Total.antt =====
-- The calls of `set_status` end: each level cancels a blocked task, so a depth above the number of
-- blocked tasks is never used up, and nothing on the way raises.
use mathlib.Core.Path.{subst}
use distributed_task_platfor.Prelude.{
  ℕ, zero, suc, ◌≤◌, ◌<◌, String, ◌≡◌, refl, sym, min, true, false, some, List, [], ◌∷◌, arith, inl,
  inr, Bool-cases, ◌==◌, count,
}
use distributed_task_platfor.Model.Status.{
  Status, created, queued, cancelled, EventType, task_unblocked, task_cancelled, ◌=?◌, elem,
  terminal,
}
use distributed_task_platfor.Model.Rows.{Task, Details, unblocked_by, parent_terminal}
use distributed_task_platfor.Model.Db.{Db, find, replace, get_task, put_task, add_outbox}
use distributed_task_platfor.Model.Result.{Returns, Outcome-weaken}
use distributed_task_platfor.StatusChange.{
  assign_status, record_event, change, unblock, cancel_blocked, advance_children, advance_each,
  after_change, set_status,
}
use distributed_task_platfor.StatusChange.Frame.{change-frame}
use distributed_task_platfor.StatusChange.Induction.{
  catch_invalid-Outcome, each-Outcome, set_status_permitted,
}

-- How many tasks have the status `created`.
abbrev pub blocked : Db → ℕ
blocked db = count (λ t. t.status =? created) db.tasks

count-replace :
    (t : Task) (ts : List Task)
    → (t.status =? created) ≡ false
    → count (λ u. u.status =? created) (replace t ts) ≤ count (λ u. u.status =? created) ts
count-replace t [] h = omega arith
count-replace t (u ∷ ts) h = elim (Bool-cases (u.id == t.id)) [
  | inl e ↦ rw (e, h) (omega (arith, count-replace t ts h))
  | inr e ↦ rw e (omega (arith, count-replace t ts h))
]

count-replace_lt :
    (t : Task) (ts : List Task) (u : Task)
    → (t.status =? created) ≡ false
    → find t.id ts ≡ some u
    → (u.status =? created) ≡ true
    → count (λ v. v.status =? created) (replace t ts) < count (λ v. v.status =? created) ts
count-replace_lt t [] u h f g = absurd (cc)
count-replace_lt t (v ∷ ts) u h f g = elim (Bool-cases (v.id == t.id)) [
  | inl e ↦
      let p : v ≡ u = ground arith in
      let q : (v.status =? created) ≡ true = subst (λ w. (w.status =? created) ≡ true) (sym p) g in
      rw (e, h, q) (omega (arith, count-replace t ts h))
  | inr e ↦ rw e (omega (arith, count-replace_lt t ts u h (ground arith) g))
]

pub blocked-change_lt :
    (now : ℕ) (t : Task) (new : Status) (e : EventType) (d : Details) (db : Db)
    → (new =? created) ≡ false
    → get_task t.id db ≡ some t
    → t.status ≡ created
    → blocked (change now t new e d db) < blocked db
unfolding get_task put_task record_event assign_status
blocked-change_lt now t new e d db n g s =
    rw ((change-frame now t new e d db).tasks)
      (count-replace_lt (assign_status now t new) db.tasks t n g (rw s))

pub blocked-change_le :
    (now : ℕ) (t : Task) (new : Status) (e : EventType) (d : Details) (db : Db)
    → (new =? created) ≡ false
    → blocked (change now t new e d db) ≤ blocked db
unfolding put_task record_event assign_status
blocked-change_le now t new e d db n =
    rw ((change-frame now t new e d db).tasks) (count-replace (assign_status now t new) db.tasks n)

module _ (key : String) (now : ℕ) where
  unblock-Returns :
      (n depth : ℕ) (t : Task) (by : ℕ) (db : Db)
      → get_task t.id db ≡ some t
      → t.status ≡ created
      → blocked db ≤ n
      → blocked db ≤ depth
      → Returns (λ db'. blocked db' ≤ n) (unblock key (set_status depth key now) t by db)
  unfolding unblock after_change add_outbox
  unblock-Returns n zero t by db g s h k =
      absurd
        (omega (arith, blocked-change_lt now t queued task_unblocked (unblocked_by by) db refl g s))
  unblock-Returns n (suc depth) t by db g s h k =
      rw
        (set_status_permitted depth key now t queued task_unblocked (unblocked_by by) db (rw s)
          (rw s))
        (omega (arith, blocked-change_lt now t queued task_unblocked (unblocked_by by) db refl g s))

  cancel-Returns :
      (n depth : ℕ) (t : Task) (by : ℕ) (s : Status) (db : Db)
      → get_task t.id db ≡ some t
      → t.status ≡ created
      → blocked db ≤ n
      → blocked db ≤ depth
      → Returns (λ db'. blocked db' ≤ n) (cancel_blocked (set_status depth key now) t by s db)
  unfolding cancel_blocked after_change advance_children
  cancel-Returns n zero t by s db g c h k = absurd (
      omega (
        arith,
        blocked-change_lt now t cancelled task_cancelled (parent_terminal by s) db refl g c,
      ))
  cancel-Returns n (suc depth) t by s db g c h k =
      catch_invalid-Outcome key (λ db'. blocked db' ≤ n) ⊥ db _ h
        (rw
          (set_status_permitted depth key now t cancelled task_cancelled (parent_terminal by s) db
            (rw c) (rw c))
          (Outcome-weaken (λ db'. blocked db' ≤ min n depth) (λ db'. blocked db' ≤ n) ⊥ _
            (λ db' p. omega arith)
            (each-Outcome key (λ db'. blocked db' ≤ min n depth) ⊥ (set_status depth key now)
              (λ u by' s' db' g' c' h'. (
                unblock-Returns (min n depth) depth u by' db' g' c' h' (omega arith),
                cancel-Returns (min n depth) depth u by' s' db' g' c' h' (omega arith),
              ))
              (assign_status now t cancelled) _ _
              (omega (
                arith,
                blocked-change_lt now t cancelled task_cancelled (parent_terminal by s) db refl g c,
              )))))

  -- The children advance with no exception, and no task is blocked anew.
  pub advance_each-Returns :
      (n depth : ℕ) (t : Task) (cs : List ℕ) (db : Db)
      → blocked db ≤ n
      → n ≤ depth
      → Returns (λ db'. blocked db' ≤ n) (advance_each key (set_status depth key now) t cs db)
  advance_each-Returns n depth t cs db h k =
      each-Outcome key (λ db'. blocked db' ≤ n) ⊥ (set_status depth key now)
        (λ u by s db' g c h'. (
          unblock-Returns n depth u by db' g c h' (omega arith),
          cancel-Returns n depth u by s db' g c h' (omega arith),
        ))
        t cs db h

  pub after_change-Returns :
      (depth : ℕ) (t : Task) (new : Status) (db : Db)
      → blocked db ≤ depth
      → Returns
          (λ db'. blocked db' ≤ blocked db)
          (after_change key (set_status depth key now) t new db)
  unfolding after_change advance_children
  after_change-Returns depth t new db h = elim (Bool-cases (elem new terminal)) [
    | inr e ↦ rw e (omega arith)
    | inl e ↦ rw e (advance_each-Returns (blocked db) depth t _ db (omega arith) h)
  ]
