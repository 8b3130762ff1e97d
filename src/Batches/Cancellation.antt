-- ===== src/Batches/Cancellation.antt =====
-- The cancellation of a batch in backend/app/services/batches.py, against the statuses of its tasks.
use mathlib.Core.Path.{subst}
use distributed_task_platfor.Prelude.{
  ℕ, suc, ◌+◌, ◌≤◌, ◌≡◌, refl, sym, ◌∙◌, true, false, Option, none, some, List, [], ◌∷◌, ◌++◌, inl,
  inr, Bool-cases, arith, select, append_nil, append_cons,
}
use distributed_task_platfor.Model.Status.{cancelled, cancelable, elem}
use distributed_task_platfor.Model.Rows.{Task}
use distributed_task_platfor.Model.Settings.{Settings}
use distributed_task_platfor.Model.Db.{Db, get_task}
use distributed_task_platfor.Model.Result.{
  Result, ok, err, task_conflict, Returns, Outcome-weaken, ◌>>=◌,
}
use distributed_task_platfor.StatusChange.Total.{blocked}
use distributed_task_platfor.Tasks.{cancel_task}
use distributed_task_platfor.Tasks.Decisions.{cancel-by_row}
use distributed_task_platfor.Tasks.BulkReports.{Permits, HasStatus, Decided, cancel-Decided}
use distributed_task_platfor.Batches.{in_batch, tally, cancel_each, cancel_batch}

-- The ids of the tasks of a batch among some rows, in the order of the rows.
pub data Members (b : ℕ) : List Task → List ℕ → Type 0 where
  nobody : Members b [] []
  belongs :
      {t : Task} {ts : List Task} {ids : List ℕ}
      → t.batch_id ≡ some b
      → Members b ts ids
      → Members b (t ∷ ts) (t.id ∷ ids)
  elsewhere :
      {t : Task} {ts : List Task} {ids : List ℕ}
      → ¬ (t.batch_id ≡ some b)
      → Members b ts ids
      → Members b (t ∷ ts) ids

-- The cancellation of tasks in their order, with the number of those that it counts as cancelled and
-- the ids of the conflicts.
pub data Cancelling : List ℕ → Db → ℕ → List ℕ → Db → Type 0 where
  finished : {a : Db} → Cancelling [] a 0 [] a
  cancels :
      {id n : ℕ} {ids cs : List ℕ} {a b c : Db}
      → Permits cancelable id a
      → HasStatus id cancelled b
      → Cancelling ids b n cs c
      → Cancelling (id ∷ ids) a (suc n) cs c
  gone :
      {id n : ℕ} {ids cs : List ℕ} {a c : Db}
      → get_task id a ≡ none
      → Cancelling ids a n cs c
      → Cancelling (id ∷ ids) a (suc n) cs c
  refuses :
      {id n : ℕ} {ids cs : List ℕ} {a c : Db} {t : Task}
      → get_task id a ≡ some t
      → elem t.status cancelable ≡ false
      → Cancelling ids a n cs c
      → Cancelling (id ∷ ids) a n (id ∷ cs) c

abbrev ids_of : List Task → List ℕ
ids_of [] = []
ids_of (t ∷ ts) = t.id ∷ ids_of ts

in_batch_lem :
    (b : ℕ) (t : Task)
    → ((in_batch b t ≡ true) → t.batch_id ≡ some b)
      × ((in_batch b t ≡ false) → ¬ (t.batch_id ≡ some b))
in_batch_lem b t = ground arith

selected-Members : (b : ℕ) (ts : List Task) → Members b ts (ids_of (select (in_batch b) ts))
selected-Members b [] = nobody
selected-Members b (t ∷ ts) = elim (Bool-cases (in_batch b t)) [
  | inl e ↦ rw e (belongs ((in_batch_lem b t).0 e) (selected-Members b ts))
  | inr e ↦ rw e (elsewhere ((in_batch_lem b t).1 e) (selected-Members b ts))
]

-- What is counted and reported beyond an earlier point.
abbrev Tallied : List ℕ → Db × ℕ × List ℕ → Db × ℕ × List ℕ → Type 0
Tallied ids acc r =
    (n : ℕ) × (cs : List ℕ) × (r.1 ≡ acc.1 + n)
    × (r.2 ≡ (acc.2 ++ cs))
    × Cancelling ids acc.0 n cs r.0

module _ (s : Settings) (depth now : ℕ) where
  one-Tallied :
      (id : ℕ) (ids : List ℕ) (ts : List Task) (acc : Db × ℕ × List ℕ) (r : Result (Option Db))
      → blocked acc.0 ≤ depth
      → Decided cancelable cancelled depth id acc.0 r
      → ((c : Db × ℕ × List ℕ)
          → blocked c.0 ≤ depth
          → Returns (Tallied ids c) (cancel_each s (suc depth) now ts c))
      → Returns
          (Tallied (id ∷ ids) acc)
          (tally s (suc depth) now id acc r >>= cancel_each s (suc depth) now ts)
  one-Tallied id ids ts (a, n, cs) (ok (some b)) h (p, q, k) ih =
      Outcome-weaken (Tallied ids (b, n + 1, cs)) (Tallied (id ∷ ids) (a, n, cs)) ⊥ _
        (λ r (m, ds, u, v, w). (suc m, ds, omega (arith, u), v, cancels p q w)) (ih _ k)
  one-Tallied id ids ts (a, n, cs) (ok none) h p ih =
      Outcome-weaken (Tallied ids (a, n + 1, cs)) (Tallied (id ∷ ids) (a, n, cs)) ⊥ _
        (λ r (m, ds, u, v, w). (suc m, ds, omega (arith, u), v, gone p w)) (ih _ h)
  one-Tallied id ids ts (a, n, cs) (err task_conflict) h (t, g, e) ih =
      Outcome-weaken (Tallied ids (a, n, cs ++ id ∷ [])) (Tallied (id ∷ ids) (a, n, cs)) ⊥ _
        (λ r (m, ds, u, v, w). (m, id ∷ ds, u, v ∙ append_cons cs id ds, refuses g e w)) (ih _ h)
  one-Tallied id ids ts acc (err _) h p ih = absurd p

  each-Tallied :
      (ts : List Task) (acc : Db × ℕ × List ℕ)
      → blocked acc.0 ≤ depth
      → Returns (Tallied (ids_of ts) acc) (cancel_each s (suc depth) now ts acc)
  unfolding cancel_each
  each-Tallied [] acc h = (0, [], omega arith, sym (append_nil acc.2), finished)
  each-Tallied (t ∷ ts) acc h =
      one-Tallied t.id (ids_of ts) ts acc (cancel_task s (suc depth) now t.id acc.0) h
        (subst (Decided cancelable cancelled depth t.id acc.0)
          (sym (cancel-by_row s (suc depth) now t.id acc.0))
          (cancel-Decided s depth now t.id acc.0 (get_task t.id acc.0) refl h))
        (each-Tallied ts)

pub batch_cancelled :
    (s : Settings) (depth now b : ℕ) (db : Db)
    → blocked db ≤ depth
    → Returns
        (λ r. (ids : List ℕ) × Members b db.tasks ids × Cancelling ids db r.1 r.2 r.0)
        (cancel_batch s (suc depth) now true b db)
      × (cancel_batch s (suc depth) now false b db ≡ err task_conflict)
unfolding cancel_batch
batch_cancelled s depth now b db h = (
  Outcome-weaken (Tallied (ids_of (select (in_batch b) db.tasks)) (db, 0, []))
      (λ r. (ids : List ℕ) × Members b db.tasks ids × Cancelling ids db r.1 r.2 r.0) ⊥ _
      (λ r (n, cs, u, v, w). (
        ids_of (select (in_batch b) db.tasks),
        selected-Members b db.tasks,
        (let e : n ≡ r.1 = omega (arith, u) in
            subst (λ m. Cancelling (ids_of (select (in_batch b) db.tasks)) db m r.2 r.0) e
              (subst (λ xs. Cancelling (ids_of (select (in_batch b) db.tasks)) db n xs r.0) (sym v)
                w)),
      ))
      (each-Tallied s depth now (select (in_batch b) db.tasks) (db, 0, []) h),
  refl,
)
