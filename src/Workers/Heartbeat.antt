-- ===== src/Workers/Heartbeat.antt =====
-- The heartbeat of a worker against the marking of dead workers, in backend/app/services/workers.py.
use distributed_task_platfor.Prelude.{
  ℕ, ◌≤◌, String, ◌≡◌, refl, sym, ap, ◌∙◌, true, false, none, some, List, [], ◌∷◌, ◌++◌, ◌=ₛ◌,
  =ₛ_iff, count, arith, inl, inr, Bool-cases, Option-cases,
}
use distributed_task_platfor.Model.Rows.{Worker, WorkerStatus}
use distributed_task_platfor.Model.Db.{Db}
use distributed_task_platfor.Scheduler.{is_stale, mark_dead}
use distributed_task_platfor.Workers.{
  find_worker, replace_worker, fresh_worker, register_worker, heartbeat, mark_dead_workers, beat,
}

none_stale : (cutoff : ℕ) (ws : List Worker) → count (is_stale cutoff) (mark_dead cutoff ws) ≡ 0
none_stale cutoff [] = refl
none_stale cutoff (w ∷ ws) = ground (arith, none_stale cutoff ws)

find-append_none :
    (i : String) (w : Worker) (ws : List Worker)
    → find_worker i ws ≡ none
    → (w.worker_id =ₛ i) ≡ true
    → find_worker i (ws ++ w ∷ []) ≡ some w
find-append_none i w [] h e = rw e refl
find-append_none i w (x ∷ ws) h e = ground (arith, h, e, find-append_none i w ws)

find-replace_worker :
    (i : String) (w old : Worker) (ws : List Worker)
    → find_worker i ws ≡ some old
    → w.worker_id ≡ i
    → find_worker i (replace_worker w ws) ≡ some w
find-replace_worker i w old [] h e = cc h
find-replace_worker i w old (x ∷ ws) h e = elim (Bool-cases (x.worker_id =ₛ i)) [
  | inl p ↦
      let q : (x.worker_id =ₛ w.worker_id) ≡ true = rw e p in
      let k : (w.worker_id =ₛ i) ≡ true = (=ₛ_iff w.worker_id i).1 e in rw (q, k) refl
  | inr p ↦
      let q : (x.worker_id =ₛ w.worker_id) ≡ false = rw e p in
      rw (q, p) (find-replace_worker i w old ws (sym (rw p refl) ∙ h) e)
]

-- A row that is fresh is found again after the marking.
find-mark_dead :
    (cutoff : ℕ) (i : String) (w : Worker) (ws : List Worker)
    → find_worker i ws ≡ some w
    → is_stale cutoff w ≡ false
    → find_worker i (mark_dead cutoff ws) ≡ some w
find-mark_dead cutoff i w [] h e = cc h
find-mark_dead cutoff i w (x ∷ ws) h e = elim (Bool-cases (x.worker_id =ₛ i)) [
  | inl p ↦
      let q : some x ≡ some w = sym (rw p refl) ∙ h in
      let r : x ≡ w = cc q in
      let n : is_stale cutoff x ≡ false = ap (λ (v : Worker). is_stale cutoff v) r ∙ e in
      rw (n, p) q
  | inr p ↦ elim (Bool-cases (is_stale cutoff x)) [
    | inl n ↦ rw (n, p) (find-mark_dead cutoff i w ws (sym (rw p refl) ∙ h) e)
    | inr n ↦ rw (n, p) (find-mark_dead cutoff i w ws (sym (rw p refl) ∙ h) e)
  ]
]

found-id :
    (i : String) (w : Worker) (ws : List Worker) → find_worker i ws ≡ some w → w.worker_id ≡ i
found-id i w [] h = cc h
found-id i w (x ∷ ws) h = elim (Bool-cases (x.worker_id =ₛ i)) [
  | inl p ↦
      let q : some x ≡ some w = sym (rw p refl) ∙ h in
      let r : x ≡ w = cc q in ap (λ (v : Worker). v.worker_id) (sym r) ∙ (=ₛ_iff x.worker_id i).0 p
  | inr p ↦ found-id i w ws (sym (rw p refl) ∙ h)
]

fresh_row :
    (cutoff now : ℕ) (w : Worker)
    → w.status ≡ WorkerStatus.alive
    → w.last_heartbeat_at ≡ now
    → cutoff ≤ now
    → is_stale cutoff w ≡ false
fresh_row cutoff now w a t h = rw (a, t) (ground arith)

-- The row of a worker after a beat.
beat-row :
    (now : ℕ) (i hostname : String) (pid : ℕ) (db : Db)
    → (w : Worker) × (find_worker i (beat now i hostname pid db).workers ≡ some w)
      × (w.status ≡ WorkerStatus.alive)
      × (w.last_heartbeat_at ≡ now)
unfolding beat heartbeat register_worker
beat-row now i hostname pid db = elim (Option-cases (find_worker i db.workers)) [
  | inl e ↦
      let w = fresh_worker now i hostname pid in
      (
        w,
        rw (e, beat, heartbeat, e) (find-append_none i w db.workers e ((=ₛ_iff i i).1 refl)),
        refl,
        refl,
      )
  | inr (w, e) ↦
      let v = record w { last_heartbeat_at = now; status = WorkerStatus.alive } in
      (
        v,
        rw (e, beat, heartbeat)
            (find-replace_worker i v w db.workers e (found-id i w db.workers e)),
        refl,
        refl,
      )
]

-- After a worker has beaten, the marking of dead workers with a limit that is not after the beat
-- leaves it alive with the time of its beat, and no alive worker is left whose last beat is before
-- the limit.
pub beating_stays_alive :
    (now cutoff : ℕ) (i hostname : String) (pid : ℕ) (db : Db)
    → cutoff ≤ now
    → ((w : Worker) × (find_worker i
            (mark_dead_workers cutoff (beat now i hostname pid db)).0.workers
          ≡ some w)
        × (w.status ≡ WorkerStatus.alive)
        × (w.last_heartbeat_at ≡ now))
      × (count (is_stale cutoff) (mark_dead_workers cutoff (beat now i hostname pid db)).0.workers
          ≡ 0)
unfolding mark_dead_workers
beating_stays_alive now cutoff i hostname pid db h =
    let (w, f, a, t) = beat-row now i hostname pid db in
    let fresh : is_stale cutoff w ≡ false = fresh_row cutoff now w a t h in
    (
      (w, find-mark_dead cutoff i w (beat now i hostname pid db).workers f fresh, a, t),
      none_stale cutoff (beat now i hostname pid db).workers,
    )
