-- ===== src/Scheduler/Retention.antt =====
-- What `purge_old_data` of backend/app/worker/services/scheduler.py keeps.
use mathlib.Core.Path.{subst}
use distributed_task_platfor.Prelude.{
  ℕ, ◌-◌, ◌*◌, ◌≡◌, refl, sym, ap, ◌∙◌, Bool, true, false, not, ◌&&◌, Option, none, some, List, [],
  ◌∷◌, ◌==◌, ==_iff, is_none, ltb, map, order_by, member, select, All, All-order_by, All-select,
  All-take, select-passes, arith, inl, inr, Bool-cases, if◌then◌else◌,
}
use distributed_task_platfor.Model.Status.{dead_letter, ◌=?◌}
use distributed_task_platfor.Model.Rows.{Task}
use distributed_task_platfor.Model.Settings.{Settings}
use distributed_task_platfor.Model.Db.{Db, find, get_task}
use distributed_task_platfor.Model.Db.Distinct.{Distinct, Distinct-select, IsRowOf, all_rows}
use distributed_task_platfor.Scheduler.{
  reached, first_ids, sent_ids, audit_ids, day, limit_or, delete_outbox, delete_audit, delete_tasks,
  done_ids, dlq_ids, purge_if, purge_done, purge_dead, purge_outbox, purge_audit, purge_old_data,
}
use distributed_task_platfor.Invariant.Reach.{Reach, empty_db, Reach-Holds}

find-select :
    (i : ℕ) (done : List ℕ) (ts : List Task)
    → find i (select (λ t. not (member t.id done)) ts) ≡ (if member i done then none else find i ts)
find-select i done [] = ground arith
find-select i done (t ∷ ts) =
    let rest = find-select i done ts in
    elim (Bool-cases (t.id == i)) [
      | inl e ↦
          let p = (==_iff t.id i).0 e in
          elim (Bool-cases (member i done)) [
            | inl m ↦ let m' : member t.id done ≡ true = rw p m in rw (m', m) (rest ∙ rw m refl)
            | inr m ↦ let m' : member t.id done ≡ false = rw p m in rw (m', m, e) refl
          ]
      | inr e ↦ elim (Bool-cases (member t.id done)) [
        | inl m ↦ rw (m, e) rest
        | inr m ↦ rw (m, e) rest
      ]
    ]

-- No row that passes a test has the id of a row that does not.
others_picked :
    (p : Task → Bool) (i : ℕ) (t : Task) (ts rows : List Task)
    → find i ts ≡ some t
    → p t ≡ false
    → All (λ r. IsRowOf ts r × (p r ≡ true)) rows
    → All (λ j. (j == i) ≡ false) (map (λ r. r.id) rows)
others_picked p i t ts [] f n h = tt
others_picked p i t ts (r ∷ rows) f n h = (
  elim (Bool-cases (r.id == i)) [
    | inl e ↦
        let g : find i ts ≡ some r = subst (λ j. find j ts ≡ some r) ((==_iff r.id i).0 e) h.0.0 in
        let q : some r ≡ some t = sym g ∙ f in
        let w : r ≡ t = cc q in
        let a : true ≡ false = sym h.0.1 ∙ ap (λ (u : Task). p u) w ∙ n in absurd (cc a)
    | inr e ↦ e
  ],
  others_picked p i t ts rows f n h.1,
)

not_member : (i : ℕ) (ids : List ℕ) → All (λ j. (j == i) ≡ false) ids → member i ids ≡ false
not_member i [] h = refl
not_member i (j ∷ ids) h = rw h.0 (not_member i ids h.1)

rows_passing :
    (p : Task → Bool) (ts rows : List Task)
    → All (IsRowOf ts) rows
    → All (λ r. p r ≡ true) rows
    → All (λ r. IsRowOf ts r × (p r ≡ true)) rows
rows_passing p ts [] h k = tt
rows_passing p ts (r ∷ rows) h k = ((h.0, k.0), rows_passing p ts rows h.1 k.1)

-- A row that does not pass the test is not among the ids that a block deletes.
not_picked :
    (p : Task → Bool) (i limit : ℕ) (t : Task) (ts : List Task)
    → Distinct ts
    → find i ts ≡ some t
    → p t ≡ false
    → member i (first_ids (λ r. r.id) limit (select p ts)) ≡ false
not_picked p i limit t ts d f n =
    let picked = order_by (λ (r : Task). r.id) (select p ts) in
    not_member i (first_ids (λ r. r.id) limit (select p ts)) (
      All-take (λ j. (j == i) ≡ false) limit (map (λ r. r.id) picked)
        (others_picked p i t ts picked f n (
          rows_passing p ts picked
            (All-order_by (IsRowOf ts) (λ r. r.id) (select p ts)
              (All-select (IsRowOf ts) p ts (all_rows ts d)))
            (All-order_by (λ r. p r ≡ true) (λ r. r.id) (select p ts) (select-passes p ts)))))

-- What a block keeps.
abbrev Kept : ℕ → Task → Db → Type 0
Kept i t db = Distinct db.tasks × (find i db.tasks ≡ some t)

delete-Kept :
    (i : ℕ) (t : Task) (ids : List ℕ) (db : Db)
    → member i ids ≡ false
    → Kept i t db
    → Kept i t (delete_tasks ids db)
unfolding delete_tasks
delete-Kept i t ids db m k = (
  Distinct-select (λ u. not (member u.id ids)) db.tasks k.0,
  find-select i ids db.tasks ∙ rw m k.1,
)

purge_if-Kept :
    (i : ℕ) (t : Task) (days : ℕ) (pick : Db → List ℕ) (r : Db × ℕ)
    → member i (pick r.0) ≡ false
    → Kept i t r.0
    → Kept i t (purge_if days pick delete_tasks r).0
purge_if-Kept i t days pick (db, n) m k = elim (Bool-cases (ltb 0 days)) [
  | inl e ↦ rw e (delete-Kept i t (pick db) db m k)
  | inr e ↦ rw e k
]

purge_if-same :
    (i : ℕ) (t : Task) (days : ℕ) (pick : Db → List ℕ) (delete : List ℕ → Db → Db) (r : Db × ℕ)
    → ((ids : List ℕ) (db : Db) → (delete ids db).tasks ≡ db.tasks)
    → Kept i t r.0
    → Kept i t (purge_if days pick delete r).0
purge_if-same i t days pick delete (db, n) m k = elim (Bool-cases (ltb 0 days)) [
  | inl e ↦ rw e (rw (m (pick db) db) k)
  | inr e ↦ rw e k
]

last_false : (a b c : Bool) → c ≡ false → (a && b && c) ≡ false
last_false true true c h = h
last_false true false c h = refl
last_false false b c h = refl

unreached : (at : Option ℕ) (cutoff : ℕ) → at ≡ none → reached at cutoff ≡ false
unreached none cutoff h = refl
unreached (some x) cutoff h = cc h

-- The four blocks, for a task that has not finished.
module _ (s : Settings) (now n i : ℕ) (t : Task) (unfinished : t.finished_at ≡ none) (r : Db × ℕ)
    (kept : Kept i t r.0) where
  done-Kept : Kept i t (purge_done s now n r).0
  unfolding purge_done
  done-Kept =
      let cutoff = now - s.retention_done_tasks_days * day in
      purge_if-Kept i t s.retention_done_tasks_days (done_ids cutoff n) r
        (unfold done_ids in
          not_picked (λ u. reached u.finished_at cutoff) i n t r.0.tasks kept.0 kept.1
            (unreached t.finished_at cutoff unfinished))
        kept

  dead-Kept : Kept i t (purge_dead s now n r).0
  unfolding purge_dead
  dead-Kept =
      let cutoff = now - s.retention_dlq_tasks_days * day in
      purge_if-Kept i t s.retention_dlq_tasks_days (dlq_ids cutoff n) r
        (unfold dlq_ids in
          not_picked
            (λ u.
              (u.status =? dead_letter) && is_none u.dlq_retry_at && reached u.finished_at cutoff)
            i n t r.0.tasks kept.0 kept.1
            (last_false (t.status =? dead_letter) (is_none t.dlq_retry_at)
              (reached t.finished_at cutoff) (unreached t.finished_at cutoff unfinished)))
        kept

  outbox-Kept : Kept i t (purge_outbox s now n r).0
  unfolding purge_outbox
  outbox-Kept =
      purge_if-same i t s.retention_outbox_sent_days
        (sent_ids (now - s.retention_outbox_sent_days * day) n) delete_outbox r
        (λ ids db. unfold delete_outbox in refl) kept

  audit-Kept : Kept i t (purge_audit s now n r).0
  unfolding purge_audit
  audit-Kept =
      purge_if-same i t s.retention_audit_days (audit_ids (now - s.retention_audit_days * day) n)
        delete_audit r (λ ids db. unfold delete_audit in refl) kept

purge-Kept :
    (s : Settings) (now i : ℕ) (limit : Option ℕ) (t : Task) (db : Db)
    → t.finished_at ≡ none
    → Kept i t db
    → Kept i t (purge_old_data s now limit db).0
unfolding purge_old_data
purge-Kept s now i limit t db f k =
    let n = limit_or limit s.retention_cleanup_batch_size in
    let a = done-Kept s now n i t f (db, 0) k in
    let b = dead-Kept s now n i t f _ a in
    let c = outbox-Kept s now n i t f _ b in audit-Kept s now n i t f _ c

-- In every database that transactions lead to: the retention keeps the row of each task that has not
-- finished, whatever the settings and the limit are.
pub unfinished_kept :
    (s : Settings) (now i : ℕ) (limit : Option ℕ) (t : Task) (db : Db)
    → Reach s empty_db db
    → get_task i db ≡ some t
    → t.finished_at ≡ none
    → get_task i (purge_old_data s now limit db).0 ≡ some t
unfolding get_task
unfinished_kept s now i limit t db r g f =
    (purge-Kept s now i limit t db f ((Reach-Holds s r).distinct, g)).1
