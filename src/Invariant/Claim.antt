-- ===== src/Invariant/Claim.antt =====
-- The first transaction of a worker keeps the invariant: between the lease and the change to
-- `running` it does not hold.
use mathlib.Core.Path.{subst}
use distributed_task_platfor.Prelude.{
  ℕ, zero, suc, ◌+◌, String, ◌≡◌, ◌≢◌, refl, sym, ap, ◌∙◌, true, false, Option, none, some, arith,
  Bool-cases, inl, inr, or_right,
}
use distributed_task_platfor.Model.Status.{
  queued, running, task_running, can_transition, ◌=?◌, eq_of_=?,
}
use distributed_task_platfor.Model.Rows.{Task, empty}
use distributed_task_platfor.Model.Settings.{Settings}
use distributed_task_platfor.Model.Db.{Db, find, get_task, put_task}
use distributed_task_platfor.Model.Db.Rows.{id-find, find-replace_self}
use distributed_task_platfor.Model.Result.{Ensures, Outcome-bind}
use distributed_task_platfor.StatusChange.{
  assign_status, record_event, change, set_status, after_change,
}
use distributed_task_platfor.StatusChange.Frame.{change-frame}
use distributed_task_platfor.StatusChange.Induction.{set_status_permitted}
use distributed_task_platfor.Attempts.{try_acquire_lease, can_acquire, start_attempt, lease_is_free}
use distributed_task_platfor.Worker.{claim, start_task}
use distributed_task_platfor.Invariant.{IsSettled, Holds}
use distributed_task_platfor.Invariant.Acquired.{
  find-acquired, replace-acquired, with_row-Holds, RunsAt,
}
use distributed_task_platfor.Invariant.Primitives.{change-Invariant, write-Invariant}
use distributed_task_platfor.Invariant.Steps.{IsSettled-find}
use distributed_task_platfor.Invariant.Creation.{HoldsIf, some-Holds}

-- The row that `try_acquire_lease` makes of a row.
abbrev leased : ℕ → String → ℕ → Task → Task
leased now worker lease t = record t {
  lease_owner = some worker;
  lease_expires_at = some (now + lease);
  updated_at = now;
}

module _ (s : Settings) (now : ℕ) where
  -- The leased row is settled once its task runs.
  leased-IsSettled :
      (worker : String) (lease : ℕ) (u : Task)
      → IsSettled s u
      → u.status ≡ queued
      → IsSettled s (assign_status now (leased now worker lease u) running)
  unfolding assign_status
  leased-IsSettled worker lease u r k = ground arith

  -- A queued row that is settled has no lease, so it can be acquired.
  queued-acquired : (u : Task) → IsSettled s u → u.status ≡ queued → can_acquire now u.id u ≡ true
  unfolding lease_is_free
  queued-acquired u r k = ground arith

  acquired-status : (id : ℕ) (u : Task) → can_acquire now id u ≡ true → u.status ≡ queued
  acquired-status id u h = eq_of_=? u.status queued (ground arith)

  not_permitted : (u : Task) → u.status ≢ queued → can_transition u.status running ≡ false
  not_permitted u k = ground arith

  module _ (worker : String) (id : ℕ) (db : Db) (h : Holds s db) where
    abbrev acquired : Db
    acquired = (try_acquire_lease now id worker s.task_lease db).1

    change-RunsAt :
        (u : Task)
        → find id db.tasks ≡ some u
        → u.status ≡ queued
        → RunsAt s now u.id
            (change now (leased now worker s.task_lease u) running task_running empty acquired)
    unfolding get_task try_acquire_lease put_task record_event
    change-RunsAt u g k =
        let t = leased now worker s.task_lease u in
        let f = change-frame now t running task_running empty acquired in
        let g' : find u.id db.tasks ≡ some u =
          subst (λ j. find j db.tasks ≡ some u) (sym (id-find id db.tasks u g)) g in
        let over =
          replace-acquired now id (leased now worker s.task_lease) (λ v. refl)
            (assign_status now t running) db.tasks
            (unfold assign_status in id-find id db.tasks u g) in
        (
          rw (f.tasks, f.events, f.next_task_id)
              (rw over (
                change-Invariant s h t u (assign_status now t running) task_running running empty g'
                  refl (or_right (t.status =? running) (can_transition t.status running) (rw k))
                  (unfold assign_status in refl) (unfold assign_status in refl)
                  (leased-IsSettled worker s.task_lease u (IsSettled-find s now u.id u db h g')
                    k))),
          λ v e.
              let t' = assign_status now t running in
              let at : find u.id (change now t running task_running empty acquired).tasks
                  ≡ some t' =
                ap (find u.id) (f.tasks ∙ over)
                ∙ unfold assign_status in find-replace_self t' db.tasks g' in
              let p : t' ≡ v = cc (at, e) in unfold assign_status in ap (λ w. w.status) (sym p),
        )

    leased-RunsAt :
        (depth : ℕ) (u : Task)
        → find id db.tasks ≡ some u
        → u.status ≡ queued
        → Ensures (RunsAt s now u.id) (
            set_status depth s.routing_key_task_created now
              (leased now worker s.task_lease u)
              running
              task_running
              empty
              acquired)
    unfolding after_change
    leased-RunsAt zero u g k = unfold set_status in tt
    leased-RunsAt (suc depth) u g k =
        rw
          (set_status_permitted depth s.routing_key_task_created now
            (leased now worker s.task_lease u) running task_running empty acquired (rw k) (rw k))
          (change-RunsAt u g k)

    not_queued :
        (u : Task) → find id db.tasks ≡ some u → can_acquire now id u ≡ false → u.status ≢ queued
    unfolding get_task
    not_queued u g n k =
        let at : can_acquire now id u ≡ true =
          subst (λ j. can_acquire now j u ≡ true) (id-find id db.tasks u g)
            (queued-acquired u (IsSettled-find s now id u db h g) k) in
        absurd (cc (at, n))

    put-RunsAt :
        (u : Task)
        → find id db.tasks ≡ some u
        → u.status ≡ running
        → RunsAt s now u.id (put_task u acquired)
    unfolding get_task try_acquire_lease put_task
    put-RunsAt u g k =
        let g' : find u.id db.tasks ≡ some u =
          subst (λ j. find j db.tasks ≡ some u) (sym (id-find id db.tasks u g)) g in
        let over =
          replace-acquired now id (leased now worker s.task_lease) (λ v. refl) u db.tasks
            (id-find id db.tasks u g) in
        (
          rw over (write-Invariant s h u u g' refl (IsSettled-find s now id u db h g)),
          λ v e.
              let at : find u.id (put_task u acquired).tasks ≡ some u =
                ap (find u.id) over ∙ find-replace_self u db.tasks g' in
              let p : u ≡ v = cc (at, e) in ap (λ w. w.status) (sym p) ∙ k,
        )

    -- A row that was not acquired is not queued: it already runs, or `set_status` raises.
    other-RunsAt :
        (depth : ℕ) (u : Task)
        → find id db.tasks ≡ some u
        → can_acquire now id u ≡ false
        → Ensures
            (RunsAt s now u.id)
            (set_status depth s.routing_key_task_created now u running task_running empty acquired)
    unfolding set_status
    other-RunsAt zero u g n = tt
    other-RunsAt (suc depth) u g n = elim (Bool-cases (u.status =? running)) [
      | inr e ↦ rw (e, not_permitted u (not_queued u g n)) tt
      | inl e ↦ rw e (put-RunsAt u g (eq_of_=? u.status running e))
    ]

    start-RunsAt :
        (depth : ℕ) (t : Task)
        → get_task id acquired ≡ some t
        → Ensures
            (RunsAt s now t.id)
            (set_status depth s.routing_key_task_created now t running task_running empty acquired)
    unfolding get_task try_acquire_lease
    start-RunsAt depth t g =
        let r = find-acquired now id (leased now worker s.task_lease) (λ v. refl) id db.tasks t g in
        elim (Bool-cases (can_acquire now id r.0)) [
          | inl e ↦
              let p : t ≡ leased now worker s.task_lease r.0 = r.2 ∙ rw e in
              subst
                (λ v. Ensures (RunsAt s now v.id) (
                  set_status depth s.routing_key_task_created now v running task_running empty
                    acquired))
                (sym p) (leased-RunsAt depth r.0 r.1 (acquired-status id r.0 e))
          | inr e ↦
              let p : t ≡ r.0 = r.2 ∙ rw e in
              subst
                (λ v. Ensures (RunsAt s now v.id) (
                  set_status depth s.routing_key_task_created now v running task_running empty
                    acquired))
                (sym p) (other-RunsAt depth r.0 r.1 e)
        ]

    started-Holds :
        (depth : ℕ) (o : Option Task)
        → get_task id acquired ≡ o
        → Ensures (HoldsIf s now) (start_task s depth now worker o acquired)
    unfolding start_attempt
    started-Holds depth none g = tt
    started-Holds depth (some t) g = some-Holds s now _ (
        Outcome-bind (RunsAt s now t.id) (Holds s) Unit
          (set_status depth s.routing_key_task_created now t running task_running empty acquired) _
          (start-RunsAt depth t g)
          (λ db' q. with_row-Holds s now depth worker t.id db' (get_task t.id db') q refl))

    -- The first transaction of a worker: it takes the lease and starts the attempt, or does nothing.
    pub claim-Holds : (depth : ℕ) → Ensures (HoldsIf s now) (claim s depth now worker id db)
    unfolding claim
    claim-Holds depth = elim (Bool-cases (try_acquire_lease now id worker s.task_lease db).0) [
      | inl e ↦ rw e (started-Holds depth (get_task id acquired) refl)
      | inr e ↦ rw e tt
    ]
