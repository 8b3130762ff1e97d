-- ===== src/Worker/Lease.antt =====
-- One claim of a task excludes the next, in backend/app/worker/main.py and services/attempts.py.
use mathlib.Core.Path.{subst}
use distributed_task_platfor.Prelude.{
  ℕ, ◌+◌, String, ◌≡◌, refl, sym, ap, ◌∙◌, false, Option, none, some, List, [], ◌∷◌, ◌==◌, ==_iff,
  ==_refl, count, arith, inl, inr, Bool-cases, Option-cases, All,
}
use distributed_task_platfor.Model.Status.{queued, running, ◌=?◌, task_attempt_started}
use distributed_task_platfor.Model.Rows.{Task, TaskEvent, attempt_number}
use distributed_task_platfor.Model.Settings.{Settings}
use distributed_task_platfor.Model.Db.{Db, find, get_task, put_task}
use distributed_task_platfor.Model.Db.Distinct.{Differs, Distinct}
use distributed_task_platfor.Model.Result.{Result, ok, err, ◌>>=◌}
use distributed_task_platfor.StatusChange.{record_event}
use distributed_task_platfor.Model.Db.Rows.{id-find}
use distributed_task_platfor.Attempts.{
  try_acquire_lease, can_acquire, start_attempt, count_attempt, with_row,
}
use distributed_task_platfor.Worker.{claim, start_task}
use distributed_task_platfor.Invariant.{status_after, status_of}
use distributed_task_platfor.Invariant.History.{status_after-snoc}
use distributed_task_platfor.Invariant.Reach.{Reach, next, claims, empty_db, Reach-Holds}

others_taken :
    (now : ℕ) (u : Task) (ts : List Task) → All (Differs u) ts → count (can_acquire now u.id) ts ≡ 0
others_taken now u [] d = refl
others_taken now u (v ∷ ts) d = ground (arith, d.0, others_taken now u ts d.1)

-- No row with that id is free if the one that is found is not queued.
none_free :
    (now id : ℕ) (t : Task) (ts : List Task)
    → Distinct ts
    → find id ts ≡ some t
    → (t.status =? queued) ≡ false
    → count (can_acquire now id) ts ≡ 0
none_free now id t [] d h n = refl
none_free now id t (u ∷ ts) d h n = elim (Bool-cases (u.id == id)) [
  | inl e ↦
      let p = (==_iff u.id id).0 e in
      let q : some u ≡ some t = sym (rw e refl) ∙ h in
      let w : u ≡ t = cc q in
      let m : (u.status =? queued) ≡ false = ap (λ (v : Task). v.status =? queued) w ∙ n in
      let r : count (can_acquire now id) ts ≡ 0 = rw (sym p) (others_taken now u ts d.0) in
      ground (arith, m, r)
  | inr e ↦ ground (arith, e, none_free now id t ts d.1 (sym (rw e refl) ∙ h) n)
]

abbrev started_event : Task → TaskEvent
started_event t = record {
  task_id = t.id;
  event_type = task_attempt_started;
  old_status = t.status;
  new_status = running;
  details = attempt_number (t.attempts + 1);
}

-- What `start_attempt` leaves in the log.
started :
    (s : Settings) (depth now : ℕ) (worker : String) (i : ℕ) (db' b : Db) (o : Option Task)
    → ((t : Task) → o ≡ some t → t.id ≡ i)
    → with_row o (λ t. ok (count_attempt s depth now worker t db')) ≡ ok b
    → status_after i none b.events ≡ some running
unfolding count_attempt record_event put_task
started s depth now worker i db' b none k h = cc h
started s depth now worker i db' b (some t) k h =
    let p : b.events ≡ (count_attempt s depth now worker t db').events = cc h in
    rw (p, status_after-snoc i none db'.events (started_event t)) (rw (k t refl, ==_refl i) refl)

unwrapped : (r : Result Db) (b : Db) → (do d ← r; ok (some d)) ≡ ok (some b) → r ≡ ok b
unwrapped (ok d) b h = cc h
unwrapped (err e) b h = cc h

started_from :
    (s : Settings) (depth now : ℕ) (worker : String) (t : Task) (r : Result Db) (b : Db)
    → (do db' ← r; with_row (get_task t.id db') (λ u. ok (count_attempt s depth now worker u db')))
      ≡ ok b
    → status_after t.id none b.events ≡ some running
started_from s depth now worker t (ok db') b h =
    started s depth now worker t.id db' b (get_task t.id db')
      (λ u g. unfold get_task in id-find t.id db'.tasks u g) h
started_from s depth now worker t (err e) b h = cc h

task_started :
    (s : Settings) (depth now : ℕ) (worker : String) (id : ℕ) (a b : Db) (o : Option Task)
    → ((t : Task) → o ≡ some t → t.id ≡ id)
    → start_task s depth now worker o a ≡ ok (some b)
    → status_after id none b.events ≡ some running
unfolding start_attempt
task_started s depth now worker id a b none k h = cc h
task_started s depth now worker id a b (some t) k h =
    subst (λ i. status_after i none b.events ≡ some running) (k t refl)
      (started_from s depth now worker t _ b (unwrapped _ b h))

claimed_runs :
    (s : Settings) (depth now : ℕ) (worker : String) (id : ℕ) (a b : Db)
    → claim s depth now worker id a ≡ ok (some b)
    → status_after id none b.events ≡ some running
unfolding claim
claimed_runs s depth now worker id a b h =
    let acquired = (try_acquire_lease now id worker s.task_lease a).1 in
    elim (Bool-cases (try_acquire_lease now id worker s.task_lease a).0) [
      | inl e ↦
          task_started s depth now worker id acquired b (get_task id acquired)
            (λ t g. unfold get_task in id-find id acquired.tasks t g) (sym (rw e refl) ∙ h)
      | inr e ↦ let q : claim s depth now worker id a ≡ ok none = rw (e, claim) refl in cc (q, h)
    ]

pub not_acquired :
    (s : Settings) (depth now : ℕ) (worker : String) (id : ℕ) (a : Db) (t : Task)
    → Distinct a.tasks
    → get_task id a ≡ some t
    → (t.status =? queued) ≡ false
    → claim s depth now worker id a ≡ ok none
unfolding claim try_acquire_lease get_task
not_acquired s depth now worker id a t d g n = rw (none_free now id t a.tasks d g n) refl

-- In every database that transactions lead to: after a worker has claimed a task, no worker claims it
-- again, at any time, until another transaction changes the database. The message of the second
-- claim is skipped.
pub claims_exclude :
    (s : Settings) (depth now depth' now' : ℕ) (worker worker' : String) (id : ℕ) (a b : Db)
    → Reach s empty_db a
    → claim s depth now worker id a ≡ ok (some b)
    → claim s depth' now' worker' id b ≡ ok none
claims_exclude s depth now depth' now' worker worker' id a b r h =
    let k = Reach-Holds s (next r (claims depth now worker id h)) in
    let agrees : status_after id none b.events ≡ status_of (get_task id b) =
      unfold get_task in k.agrees id in
    let runs : status_of (get_task id b) ≡ some running =
      sym agrees ∙ claimed_runs s depth now worker id a b h in
    elim (Option-cases (get_task id b)) [
      | inl e ↦ let q : status_of (get_task id b) ≡ none = rw e refl in cc (q, runs)
      | inr (t, e) ↦
          let q : status_of (get_task id b) ≡ some t.status = rw e refl in
          let p : t.status ≡ running = cc (q, runs) in
          not_acquired s depth' now' worker' id b t k.distinct e (rw p refl)
    ]
