-- ===== src/StatusChange/Cancelled.antt =====
-- What `set_status` does to the children of a task that ends without success.
use mathlib.Core.Path.{subst}
use distributed_task_platfor.Prelude.{
  ℕ, zero, suc, ◌≤◌, String, ◌≡◌, refl, sym, ap, ◌∙◌, true, false, none, some, Option, List, [],
  ◌∷◌, arith, inl, inr, Bool-cases, ◌==◌, ==_iff, ==_refl, All,
}
use distributed_task_platfor.Model.Status.{
  Status, created, queued, success, cancelled, EventType, task_unblocked, task_cancelled, ◌=?◌,
  elem, terminal, can_transition, eq_of_=?,
}
use distributed_task_platfor.Model.Rows.{Task, Details, parent_terminal}
use distributed_task_platfor.Model.Db.{Db, get_task, put_task, add_outbox}
use distributed_task_platfor.Model.Db.Rows.{id-find}
use distributed_task_platfor.Model.Result.{
  Result, ok, err, Ensures, Returns, Outcome-weaken, Outcome-bind,
}
use distributed_task_platfor.StatusChange.{
  assign_status, record_event, change, cancel_blocked, advance_child, advance_each,
  advance_children, after_change, set_status, children_of, children_of_rows, catch_invalid,
}
use distributed_task_platfor.StatusChange.Frame.{change-frame}
use distributed_task_platfor.StatusChange.Induction.{
  set_status_permitted, advance_each-Ensures, get_task-id,
}
use distributed_task_platfor.StatusChange.Total.{blocked, blocked-change_lt, advance_each-Returns}
use distributed_task_platfor.StatusChange.Children.{
  find-change_ne, find-change_self, permitted_ne, Outcome-both,
}

-- The task is not blocked, or has no row.
abbrev pub NotBlocked : ℕ → Db → Type 0
NotBlocked i db = (t : Task) → get_task i db ≡ some t → (t.status =? created) ≡ false

change-NotBlocked :
    (i now : ℕ) (t u : Task) (new : Status) (e : EventType) (d : Details) (db : Db)
    → get_task t.id db ≡ some u
    → (new =? created) ≡ false
    → ((t.id == i) ≡ false → NotBlocked i db)
    → NotBlocked i (change now t new e d db)
change-NotBlocked i now t u new e d db g n h v k = elim (Bool-cases (t.id == i)) [
  | inr p ↦ h p v (sym (find-change_ne now t new e d db i p) ∙ k)
  | inl p ↦
      let at : get_task i (change now t new e d db) ≡ some (assign_status now t new) =
        subst (λ j. get_task j (change now t new e d db) ≡ some (assign_status now t new))
          ((==_iff t.id i).0 p) (find-change_self now t u new e d db g) in
      let r : assign_status now t new ≡ v = cc (at, k) in
      subst (λ w. (w.status =? created) ≡ false) r (unfold assign_status in n)
]

module _ (key : String) (now i : ℕ) where
  each-NotBlocked :
      (depth : ℕ) (t : Task) (cs : List ℕ) (db : Db)
      → NotBlocked i db
      → Ensures (NotBlocked i) (advance_each key (set_status depth key now) t cs db)
  each-NotBlocked depth t cs db h =
      advance_each-Ensures key now (NotBlocked i)
        (λ u d a g c k. change-NotBlocked i now u u cancelled task_cancelled d a g refl (λ _. k))
        (λ u d a g c k.
          unfold add_outbox get_task in
          change-NotBlocked i now u u queued task_unblocked d a g refl (λ _. k))
        depth t cs db h

catch_returned :
    (P : Db → Type 0) (db : Db) (r : Result Db) → Returns P r → Returns P (catch_invalid db r)
catch_returned P db (ok a) h = h
catch_returned P db (err _) h = elim h [ ]

module _ (key : String) (now : ℕ) where
  cancel-NotBlocked :
      (n depth : ℕ) (c : Task) (by : ℕ) (s : Status) (db : Db)
      → get_task c.id db ≡ some c
      → c.status ≡ created
      → blocked db ≤ n
      → n ≤ depth
      → Returns
          (λ db'. NotBlocked c.id db' × (blocked db' ≤ n))
          (cancel_blocked (set_status depth key now) c by s db)
  unfolding cancel_blocked after_change advance_children
  cancel-NotBlocked n zero c by s db g k h l = absurd (
      omega (
        arith,
        blocked-change_lt now c cancelled task_cancelled (parent_terminal by s) db refl g k,
      ))
  cancel-NotBlocked n (suc depth) c by s db g k h l =
      let d = parent_terminal by s in
      let db1 = change now c cancelled task_cancelled d db in
      let c' = assign_status now c cancelled in
      let less = blocked-change_lt now c cancelled task_cancelled d db refl g k in
      rw (set_status_permitted depth key now c cancelled task_cancelled d db (rw k) (rw k)) (
        catch_returned (λ a. NotBlocked c.id a × (blocked a ≤ n)) db _
          (Outcome-both (NotBlocked c.id) (λ a. blocked a ≤ n) _
            (each-NotBlocked key now c.id depth c' _ db1 (
              change-NotBlocked c.id now c c cancelled task_cancelled d db g refl
                (λ p. absurd (cc (p, ==_refl c.id)))))
            (Outcome-weaken (λ a. blocked a ≤ blocked db1) (λ a. blocked a ≤ n) ⊥ _
              (λ a p. omega arith)
              (advance_each-Returns key now (blocked db1) depth c' _ db1 (omega arith)
                (omega (arith, less))))))

  row-id : (c : ℕ) (u : Task) (db : Db) → get_task c db ≡ some u → u.id ≡ c
  unfolding get_task
  row-id c u db g = id-find c db.tasks u g

  child-NotBlocked :
      (n depth : ℕ) (t : Task) (c : ℕ) (o : Option Task) (db : Db)
      → get_task c db ≡ o
      → (t.status =? success) ≡ false
      → blocked db ≤ n
      → n ≤ depth
      → Returns
          (λ db'. NotBlocked c db' × (blocked db' ≤ n))
          (advance_child key (set_status depth key now) t o db)
  unfolding advance_child
  child-NotBlocked n depth t c none db g k h l = (λ v e. absurd (cc (g, e)), h)
  child-NotBlocked n depth t c (some u) db g k h l = elim (Bool-cases (u.status =? created)) [
    | inr e ↦
        rw e (λ v r. let q : u ≡ v = cc (g, r) in subst (λ w. (w.status =? created) ≡ false) q e, h)
    | inl e ↦
        rw (e, k)
          (subst
            (λ j.
              Returns (λ db'. NotBlocked j db' × (blocked db' ≤ n))
                (cancel_blocked (set_status depth key now) u t.id t.status db))
            (row-id c u db g)
            (cancel-NotBlocked n depth u t.id t.status db (get_task-id c db u g)
              (eq_of_=? u.status created e) h l))
  ]

  each_cancelled :
      (n depth : ℕ) (t : Task) (cs : List ℕ) (db : Db)
      → (t.status =? success) ≡ false
      → blocked db ≤ n
      → n ≤ depth
      → Returns
          (λ db'. All (λ c. NotBlocked c db') cs)
          (advance_each key (set_status depth key now) t cs db)
  unfolding advance_each
  each_cancelled n depth t [] db k h l = tt
  each_cancelled n depth t (c ∷ cs) db k h l =
      Outcome-bind (λ a. NotBlocked c a × (blocked a ≤ n))
        (λ a. NotBlocked c a × All (λ j. NotBlocked j a) cs) ⊥
        (advance_child key (set_status depth key now) t (get_task c db) db)
        (advance_each key (set_status depth key now) t cs)
        (child-NotBlocked n depth t c (get_task c db) db refl k h l)
        (λ a p.
          Outcome-both (NotBlocked c) (λ b. All (λ j. NotBlocked j b) cs) _
            (each-NotBlocked key now c depth t cs a p.0) (each_cancelled n depth t cs a k p.1 l))

after_cancelled :
    (key : String) (now depth : ℕ) (t : Task) (new : Status) (db : Db)
    → elem new terminal ≡ true
    → (t.status =? success) ≡ false
    → blocked db ≤ depth
    → Returns
        (λ db'. All (λ c. NotBlocked c db') (children_of t.id db))
        (after_change key (set_status depth key now) t new db)
unfolding after_change advance_children
after_cancelled key now depth t new db m n h =
    rw m (each_cancelled key now (blocked db) depth t (children_of t.id db) db n (omega arith) h)

children_of-change :
    (now : ℕ) (t : Task) (new : Status) (e : EventType) (d : Details) (db : Db)
    → children_of (assign_status now t new).id (change now t new e d db) ≡ children_of t.id db
unfolding children_of assign_status put_task record_event
children_of-change now t new e d db =
    ap (children_of_rows t.id) ((change-frame now t new e d db).dependencies)

-- When a task gets a terminal status that is not `success`, by a permitted change and under a bound
-- on the depth of the calls that is above the number of tasks in `created`, none of its children is
-- left in `created`.
pub children_cancelled :
    (key : String) (now depth : ℕ) (t : Task) (new : Status) (e : EventType) (d : Details) (db : Db)
    → can_transition t.status new ≡ true
    → elem new terminal ≡ true
    → (new =? success) ≡ false
    → blocked (change now t new e d db) ≤ depth
    → Returns
        (λ db'. All (λ c. NotBlocked c db') (children_of t.id db))
        (set_status (suc depth) key now t new e d db)
children_cancelled key now depth t new e d db c m n h =
    let b = permitted_ne t.status new c in
    rw (set_status_permitted depth key now t new e d db b.1 c) (
      subst
        (λ cs.
          Returns (λ db'. All (λ j. NotBlocked j db') cs)
            (after_change key (set_status depth key now) (assign_status now t new) new
              (change now t new e d db)))
        (children_of-change now t new e d db)
        (after_cancelled key now depth (assign_status now t new) new (change now t new e d db) m
          (unfold assign_status in n) h))
