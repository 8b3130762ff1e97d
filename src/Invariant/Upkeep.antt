-- ===== src/Invariant/Upkeep.antt =====
-- The renewal of a lease and the retention pass keep the invariant.
use mathlib.Core.Path.{subst}
use distributed_task_platfor.Prelude.{
  ℕ, ◌+◌, ◌-◌, ◌*◌, ◌<◌, String, ◌≡◌, refl, sym, ap, ◌∙◌, Bool, true, not, ◌&&◌, Option, none, some,
  List, [], ◌∷◌, arith, ◌==◌, ==_iff, Bool-cases, inl, inr, if◌then◌else◌, All, All-select, ltb,
  select, member,
}
use distributed_task_platfor.Model.Status.{Status}
use distributed_task_platfor.Model.Rows.{Task, TaskEvent}
use distributed_task_platfor.Model.Settings.{Settings}
use distributed_task_platfor.Model.Db.{Db, find}
use distributed_task_platfor.Model.Db.Distinct.{Differs, Distinct, Distinct-select}
use distributed_task_platfor.Attempts.{can_renew, renew_lease, update_where}
use distributed_task_platfor.Scheduler.{
  day, delete_tasks, purge_if, delete_outbox, delete_audit, purge_old_data, done_ids, dlq_ids,
  sent_ids, audit_ids, purge_done, purge_dead, purge_outbox, purge_audit, limit_or,
}
use distributed_task_platfor.Invariant.{
  IsSettled, Invariant, Holds, status_after, legal, status_of, legal_step,
}

module _ (p : Task → Bool) (f : Task → Task)
    (same : (t : Task) → ((f t).id ≡ t.id) × ((f t).status ≡ t.status)) where
  update-All :
      {P : Task → Type 0} (ts : List Task)
      → ((t : Task) → p t ≡ true → P t → P (f t))
      → All P ts
      → All P (update_where p f ts)
  update-All [] k h = tt
  update-All (t ∷ ts) k h = elim (Bool-cases (p t)) [
    | inl e ↦ rw e (k t e h.0, update-All ts k h.1)
    | inr e ↦ rw e (h.0, update-All ts k h.1)
  ]

  update-Differs :
      (t : Task) (ts : List Task) → All (Differs t) ts → All (Differs t) (update_where p f ts)
  update-Differs t ts h = update-All ts (λ u e k. rw ((same u).0) k) h

  update-Distinct : (ts : List Task) → Distinct ts → Distinct (update_where p f ts)
  update-Distinct [] h = tt
  update-Distinct (t ∷ ts) h = elim (Bool-cases (p t)) [
    | inl e ↦ rw (e, (same t).0) (update-Differs t ts h.0, update-Distinct ts h.1)
    | inr e ↦ rw e (update-Differs t ts h.0, update-Distinct ts h.1)
  ]

  update-status_of :
      (i : ℕ) (ts : List Task) → status_of (find i (update_where p f ts)) ≡ status_of (find i ts)
  update-status_of i [] = refl
  update-status_of i (t ∷ ts) = ground (arith, update-status_of i ts, same t)

  update-Invariant :
      (s : Settings) {ts : List Task} {es : List TaskEvent} {next : ℕ}
      → ((t : Task) → p t ≡ true → IsSettled s t → IsSettled s (f t))
      → Invariant s ts es next
      → Invariant s (update_where p f ts) es next
  update-Invariant s {ts} {es} {next} k h = record {
    settled = update-All ts k h.settled;
    ids = update-All ts (λ t e b. subst (λ n. n < next) (sym ((same t).0)) b) h.ids;
    distinct = update-Distinct ts h.distinct;
    agrees = λ i. h.agrees i ∙ sym (update-status_of i ts);
    legals = h.legals;
  }

pub renew_lease-Holds :
    (s : Settings) (now id : ℕ) (worker : String) (lease : ℕ) (db : Db)
    → Holds s db
    → Holds s (renew_lease now id worker lease db).1
unfolding renew_lease
renew_lease-Holds s now id worker lease db h =
    update-Invariant (can_renew id worker)
      (λ t. record t { lease_expires_at = some (now + lease); updated_at = now })
      (λ t. (refl, refl)) s
      (λ t e r. record {
        finished = r.finished;
        unfinished = r.unfinished;
        unscheduled = r.unscheduled;
        waiting = r.waiting;
        started = r.started;
        owner = r.owner;
        lease = sym (ground arith);
        cycles = r.cycles;
      })
      h

abbrev kept : List ℕ → TaskEvent → Bool
kept ids e = not (member e.task_id ids)

status_after-select :
    (ids : List ℕ) (i : ℕ) (acc : Option Status) (es : List TaskEvent)
    → status_after i acc (select (kept ids) es)
      ≡ (if member i ids then acc else status_after i acc es)
status_after-select ids i acc [] = ground arith
status_after-select ids i acc (e ∷ es) = elim (Bool-cases (e.task_id == i)) [
  | inl p ↦
      let q : e.task_id ≡ i = (==_iff e.task_id i).0 p in
      let r : member e.task_id ids ≡ member i ids = ap (λ j. member j ids) q in
      elim (Bool-cases (member i ids)) [
        | inl m ↦ rw (r, m) (status_after-select ids i acc es ∙ rw m)
        | inr m ↦ rw (r, m) (rw p (status_after-select ids i (some e.new_status) es ∙ rw m))
      ]
  | inr p ↦ elim (Bool-cases (member e.task_id ids)) [
    | inl m ↦ rw (m, p) (status_after-select ids i acc es)
    | inr m ↦ rw (m, p) (status_after-select ids i acc es)
  ]
]

legal-select :
    (ids : List ℕ) (i : ℕ) (acc : Option Status) (es : List TaskEvent)
    → legal i acc (select (kept ids) es) ≡ (if member i ids then true else legal i acc es)
legal-select ids i acc [] = ground arith
legal-select ids i acc (e ∷ es) = elim (Bool-cases (e.task_id == i)) [
  | inl p ↦
      let q : e.task_id ≡ i = (==_iff e.task_id i).0 p in
      let r : member e.task_id ids ≡ member i ids = ap (λ j. member j ids) q in
      elim (Bool-cases (member i ids)) [
        | inl m ↦ rw (r, m) (legal-select ids i acc es ∙ rw m)
        | inr m ↦
            rw (r, m)
              (rw p (
                ap (λ b. legal_step acc e && b) (legal-select ids i (some e.new_status) es ∙ rw m)))
      ]
  | inr p ↦ elim (Bool-cases (member e.task_id ids)) [
    | inl m ↦ rw (m, p) (legal-select ids i acc es)
    | inr m ↦ rw (m, p) (legal-select ids i acc es)
  ]
]

find-select :
    (ids : List ℕ) (i : ℕ) (ts : List Task)
    → find i (select (λ t. not (member t.id ids)) ts) ≡ (if member i ids then none else find i ts)
find-select ids i [] = ground arith
find-select ids i (t ∷ ts) = elim (Bool-cases (t.id == i)) [
  | inl p ↦
      let r : member t.id ids ≡ member i ids = ap (λ j. member j ids) ((==_iff t.id i).0 p) in
      elim (Bool-cases (member i ids)) [
        | inl m ↦ rw (r, m) (find-select ids i ts ∙ rw m)
        | inr m ↦ rw (r, m) (rw p refl)
      ]
  | inr p ↦ elim (Bool-cases (member t.id ids)) [
    | inl m ↦ rw (m, p) (find-select ids i ts)
    | inr m ↦ rw (m, p) (find-select ids i ts)
  ]
]

delete-Holds : (s : Settings) (ids : List ℕ) (db : Db) → Holds s db → Holds s (delete_tasks ids db)
unfolding delete_tasks
delete-Holds s ids db h = record {
  settled = All-select (IsSettled s) (λ t. not (member t.id ids)) db.tasks h.settled;
  ids = All-select (λ t. t.id < db.next_task_id) (λ t. not (member t.id ids)) db.tasks h.ids;
  distinct = Distinct-select (λ t. not (member t.id ids)) db.tasks h.distinct;
  agrees = λ i.
      rw (status_after-select ids i none db.events, find-select ids i db.tasks)
        (elim (Bool-cases (member i ids)) [ inl m ↦ rw m | inr m ↦ rw m (h.agrees i) ]);
  legals = λ i.
      rw (legal-select ids i none db.events)
        (elim (Bool-cases (member i ids)) [ inl m ↦ rw m | inr m ↦ rw m (h.legals i) ]);
}

purge_if-Holds :
    (s : Settings) (days : ℕ) (pick : Db → List ℕ) (delete : List ℕ → Db → Db) (r : Db × ℕ)
    → ((ids : List ℕ) (db : Db) → Holds s db → Holds s (delete ids db))
    → Holds s r.0
    → Holds s (purge_if days pick delete r).0
purge_if-Holds s days pick delete (db, n) k h = elim (Bool-cases (ltb 0 days)) [
  | inl e ↦ rw e (k (pick db) db h)
  | inr e ↦ rw e h
]

module _ (s : Settings) (now n : ℕ) (r : Db × ℕ) (h : Holds s r.0) where
  done-Holds : Holds s (purge_done s now n r).0
  unfolding purge_done
  done-Holds =
      purge_if-Holds s s.retention_done_tasks_days
        (done_ids (now - s.retention_done_tasks_days * day) n) delete_tasks r (delete-Holds s) h

  dead-Holds : Holds s (purge_dead s now n r).0
  unfolding purge_dead
  dead-Holds =
      purge_if-Holds s s.retention_dlq_tasks_days
        (dlq_ids (now - s.retention_dlq_tasks_days * day) n) delete_tasks r (delete-Holds s) h

  outbox-Holds : Holds s (purge_outbox s now n r).0
  unfolding purge_outbox delete_outbox
  outbox-Holds =
      purge_if-Holds s s.retention_outbox_sent_days
        (sent_ids (now - s.retention_outbox_sent_days * day) n) delete_outbox r (λ ids a k. k) h

  audit-Holds : Holds s (purge_audit s now n r).0
  unfolding purge_audit delete_audit
  audit-Holds =
      purge_if-Holds s s.retention_audit_days (audit_ids (now - s.retention_audit_days * day) n)
        delete_audit r (λ ids a k. k) h

pub purge_old_data-Holds :
    (s : Settings) (now : ℕ) (limit : Option ℕ) (db : Db)
    → Holds s db
    → Holds s (purge_old_data s now limit db).0
purge_old_data-Holds s now limit db h =
    let n = limit_or limit s.retention_cleanup_batch_size in
    let a = purge_done s now n (db, 0) in
    let b = purge_dead s now n a in
    let c = purge_outbox s now n b in
    unfold purge_old_data in
    audit-Holds s now n c
      (outbox-Holds s now n b (dead-Holds s now n a (done-Holds s now n (db, 0) h)))
