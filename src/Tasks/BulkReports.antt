-- ===== src/Tasks/BulkReports.antt =====
-- What the bulk operations of backend/app/services/tasks.py do and report, against the statuses of
-- the tasks.
use distributed_task_platfor.Prelude.{
  ℕ, suc, ◌≤◌, ◌≡◌, refl, sym, ap, ◌∙◌, true, false, Option, none, some, List, [], ◌∷◌, ◌++◌, inl,
  inr, ◌⊎◌, Bool-cases, arith,
}
use distributed_task_platfor.Model.Status.{
  Status, created, cancelled, EventType, task_cancelled, cancelable, elem, ◌=?◌, can_transition,
}
use distributed_task_platfor.Model.Rows.{Task, Details, empty}
use distributed_task_platfor.Model.Settings.{Settings}
use distributed_task_platfor.Model.Db.{Db, get_task}
use distributed_task_platfor.Model.Db.Rows.{id-find}
use distributed_task_platfor.Model.Result.{
  Result, ok, err, task_conflict, Returns, Outcome-weaken, ◌>>=◌,
}
use distributed_task_platfor.StatusChange.{assign_status, change, set_status}
use distributed_task_platfor.StatusChange.Total.{blocked, blocked-change_le}
use distributed_task_platfor.StatusChange.Children.{set_status-Returns}
use distributed_task_platfor.Tasks.Decisions.{cancel-permitted, by_row}
use distributed_task_platfor.Tasks.{Bulk, cancel_row}

-- The row of that id may be changed.
abbrev pub Permits : List Status → ℕ → Db → Type 0
Permits permitted id db = (t : Task) × (get_task id db ≡ some t) × (elem t.status permitted ≡ true)

-- There is no such row, or its status does not permit the change.
abbrev pub Refuses : List Status → ℕ → Db → Type 0
Refuses permitted id db =
    (get_task id db ≡ none)
    ⊎ ((t : Task) × (get_task id db ≡ some t) × (elem t.status permitted ≡ false))

abbrev pub HasStatus : ℕ → Status → Db → Type 0
HasStatus id new db = (t : Task) × (get_task id db ≡ some t) × (t.status ≡ new)

-- The run of a bulk operation over the ids in their order: an id whose row permits the change at that
-- point has the new status after it and is among the successes; an id that does not is in conflict
-- and changes nothing.
pub data Handled (permitted : List Status) (new : Status)
    : List ℕ → Db → List ℕ → List ℕ → Db → Type 0 where
  done : {a : Db} → Handled permitted new [] a [] [] a
  changed :
      {id : ℕ} {ids ss cs : List ℕ} {a b c : Db}
      → Permits permitted id a
      → HasStatus id new b
      → Handled permitted new ids b ss cs c
      → Handled permitted new (id ∷ ids) a (id ∷ ss) cs c
  refused :
      {id : ℕ} {ids ss cs : List ℕ} {a c : Db}
      → Refuses permitted id a
      → Handled permitted new ids a ss cs c
      → Handled permitted new (id ∷ ids) a ss (id ∷ cs) c

-- What one operation is to do, by its result.
abbrev pub Decided : List Status → Status → ℕ → ℕ → Db → Result (Option Db) → Type 0
Decided permitted new depth id a (ok (some b)) =
    Permits permitted id a × HasStatus id new b × (blocked b ≤ depth)
Decided permitted new depth id a (ok none) = get_task id a ≡ none
Decided permitted new depth id a (err task_conflict) =
    (t : Task) × (get_task id a ≡ some t) × (elem t.status permitted ≡ false)
Decided permitted new depth id a (err _) = ⊥

-- The ids reported beyond those of an earlier point.
abbrev Reports : List Status → Status → List ℕ → Bulk → Bulk → Type 0
Reports permitted new ids b r =
    (ss : List ℕ) × (cs : List ℕ) × (r.succeeded ≡ (b.succeeded ++ ss))
    × (r.conflicts ≡ (b.conflicts ++ cs))
    × Handled permitted new ids b.db ss cs r.db

-- A permitted change of status.
after_change_of :
    (permitted : List Status) (new : Status) (depth id : ℕ) (t : Task) (a : Db) (r : Result Db)
    → get_task id a ≡ some t
    → elem t.status permitted ≡ true
    → Returns (λ b. HasStatus id new b × (blocked b ≤ depth)) r
    → Decided permitted new depth id a (r >>= λ b. ok (some b))
after_change_of permitted new depth id t a (ok b) g p (has, k) = ((t, g, p), has, k)
after_change_of permitted new depth id t a (err e) g p h = absurd h

module _ (s : Settings) (depth now : ℕ) where
  set-Status :
      (id : ℕ) (t : Task) (new : Status) (e : EventType) (d : Details) (a : Db)
      → get_task id a ≡ some t
      → can_transition t.status new ≡ true
      → (new =? created) ≡ false
      → blocked a ≤ depth
      → Returns
          (λ b. HasStatus id new b × (blocked b ≤ depth))
          (set_status (suc depth) s.routing_key_task_created now t new e d a)
  unfolding assign_status get_task
  set-Status id t new e d a g c n h =
      let same : t.id ≡ id = id-find id a.tasks t g in
      let less = blocked-change_le now t new e d a n in
      Outcome-weaken
        (λ b.
          (get_task t.id b ≡ some (assign_status now t new))
          × (blocked b ≤ blocked (change now t new e d a)))
        (λ b. HasStatus id new b × (blocked b ≤ depth)) ⊥ _
        (λ b (row, k). (
          (assign_status now t new, ap (λ j. get_task j b) (sym same) ∙ row, refl),
          omega (arith, k, less, h),
        ))
        (set_status-Returns s.routing_key_task_created now depth t t new e d a
          (ap (λ j. get_task j a) same ∙ g) c (omega (arith, h, less)))

  pub cancel-Decided :
      (id : ℕ) (a : Db) (o : Option Task)
      → get_task id a ≡ o
      → blocked a ≤ depth
      → Decided cancelable cancelled depth id a (by_row (cancel_row s (suc depth) now) a o)
  unfolding cancel_row
  cancel-Decided id a none g h = g
  cancel-Decided id a (some t) g h = elim (Bool-cases (elem t.status cancelable)) [
    | inr e ↦ rw e (t, g, e)
    | inl e ↦ rw e (
        after_change_of cancelable cancelled depth id t a
          (set_status (suc depth) s.routing_key_task_created now t cancelled task_cancelled empty a)
          g e
          (set-Status id t cancelled task_cancelled empty a g (cancel-permitted t.status e) refl h))
  ]
