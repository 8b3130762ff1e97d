-- ===== src/Tasks/Blocked.antt =====
-- A task that is created with parents, `create_task` of backend/app/services/tasks.py.
use mathlib.Core.Path.{subst}
use distributed_task_platfor.Prelude.{
  ◌==◌, ==_refl, ℕ, ◌≡◌, refl, sym, ap, ◌∙◌, true, some, List, [], ◌∷◌, ◌++◌, arith, inl, inr,
  Bool-cases,
}
use distributed_task_platfor.Model.Status.{created}
use distributed_task_platfor.Model.Rows.{Task}
use distributed_task_platfor.Model.Settings.{Settings}
use distributed_task_platfor.Model.Db.{Db, find, get_task}
use distributed_task_platfor.Model.Result.{ok, Ensures, Outcome-bind}
use distributed_task_platfor.StatusChange.{record_event}
use distributed_task_platfor.Dependencies.{register_dependencies, add_edges}
use distributed_task_platfor.Tasks.Naive.{comparable-Ensures}
use distributed_task_platfor.Tasks.{
  is_naive, TaskSpec, new_task, insert_task, has_key, place_task, create_task,
}
use distributed_task_platfor.Invariant.{Holds}
use distributed_task_platfor.Invariant.Reach.{Reach, empty_db, Reach-Holds}
use distributed_task_platfor.Invariant.Creation.{register-Ensures}
use distributed_task_platfor.Invariant.Primitives.{find_above, find-append}

-- The rows and the messages.
abbrev pub Leaves : List Task → Db → Db → Type 0
Leaves ts a b = (b.tasks ≡ ts) × (b.outbox ≡ a.outbox)

pub place-Leaves :
    (s : Settings) (depth now p : ℕ) (t : Task) (ps : List ℕ) (a : Db)
    → Ensures (Leaves a.tasks a) (place_task s depth now t (p ∷ ps) a)
unfolding place_task record_event
place-Leaves s depth now p t ps a =
    Outcome-bind (Leaves a.tasks a) (Leaves a.tasks a) Unit (register_dependencies t.id (p ∷ ps) a)
      _ (register-Ensures s now _ t.id (p ∷ ps) a (λ es. unfold add_edges in (refl, refl)))
      (λ db' k. k)

place-any :
    (s : Settings) (depth now p : ℕ) (t : Task) (ps ds : List ℕ) (a : Db)
    → ds ≡ p ∷ ps
    → Ensures (Leaves a.tasks a) (place_task s depth now t ds a)
place-any s depth now p t ps ds a h =
    subst (λ qs. Ensures (Leaves a.tasks a) (place_task s depth now t qs a)) (sym h)
      (place-Leaves s depth now p t ps a)

create-Leaves :
    (s : Settings) (depth now p : ℕ) (ps : List ℕ) (spec : TaskSpec) (a : Db)
    → spec.depends_on ≡ p ∷ ps
    → Ensures
        (Leaves (a.tasks ++ new_task s now spec a.next_task_id ∷ []) a)
        (create_task s depth now spec a)
unfolding create_task insert_task record_event
create-Leaves s depth now p ps spec a h =
    let t = new_task s now spec a.next_task_id in
    elim (Bool-cases (has_key t.idempotency_key a.tasks)) [
      | inl e ↦ rw e tt
      | inr e ↦ rw e (
          comparable-Ensures (Leaves (a.tasks ++ new_task s now spec a.next_task_id ∷ []) a)
            (is_naive spec) spec.depends_on _ (place-any s depth now p t ps spec.depends_on _ h))
    ]

pub find-new :
    (s : Settings) (now : ℕ) (spec : TaskSpec) (a : Db)
    → Holds s a
    → find a.next_task_id (a.tasks ++ new_task s now spec a.next_task_id ∷ [])
      ≡ some (new_task s now spec a.next_task_id)
find-new s now spec a h =
    let t = new_task s now spec a.next_task_id in
    let same : (t.id == a.next_task_id) ≡ true = unfold new_task in ==_refl a.next_task_id in
    rw
      (
        find-append a.next_task_id t a.tasks,
        find_above a.next_task_id a.next_task_id a.tasks h.ids (omega arith),
        same,
      )
      refl

-- In every database that transactions lead to: a task that is created with parents is stored in
-- `created` with no message for a worker, whatever the statuses of its parents are, all of them in
-- `success` included, and whatever its `schedule_at` is.
pub created_with_parents :
    (s : Settings) (depth now p : ℕ) (ps : List ℕ) (spec : TaskSpec) (a b : Db)
    → Reach s empty_db a
    → spec.depends_on ≡ p ∷ ps
    → create_task s depth now spec a ≡ ok b
    → (get_task a.next_task_id b ≡ some (new_task s now spec a.next_task_id))
      × ((new_task s now spec a.next_task_id).status ≡ created)
      × (b.outbox ≡ a.outbox)
unfolding get_task
created_with_parents s depth now p ps spec a b r d e =
    let l : Leaves (a.tasks ++ new_task s now spec a.next_task_id ∷ []) a b =
      subst (Ensures (Leaves (a.tasks ++ new_task s now spec a.next_task_id ∷ []) a)) e
        (create-Leaves s depth now p ps spec a d) in
    (
      ap (find a.next_task_id) l.0 ∙ find-new s now spec a (Reach-Holds s r),
      unfold new_task in refl,
      l.1,
    )
