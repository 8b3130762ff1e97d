-- ===== src/Invariant/Primitives.antt =====
-- The invariant under the writes that the operations are made of.
use mathlib.Core.Path.{subst}
use distributed_task_platfor.Prelude.{
  ℕ, suc, ◌≤◌, ◌<◌, ◌≡◌, refl, sym, ap, ◌∙◌, true, ◌||◌, none, some, List, [], ◌∷◌, ◌++◌, arith,
  ◌==◌, ==_iff, ==_refl, Bool-cases, inl, inr, is_some, All, All-append, if◌then◌else◌,
}
use distributed_task_platfor.Model.Status.{
  Status, created, EventType, position, ◌=?◌, can_transition, position,
}
use distributed_task_platfor.Model.Rows.{Task, TaskEvent, Details}
use distributed_task_platfor.Model.Settings.{Settings}
use distributed_task_platfor.Model.Db.{find, replace}
use distributed_task_platfor.Model.Db.Distinct.{Distinct-replace, Distinct-snoc}
use distributed_task_platfor.Model.Db.Rows.{id-find, find-replace, All-replace, All-find}
use distributed_task_platfor.Invariant.{status_after, legal, status_of, IsSettled, Invariant}
use distributed_task_platfor.Invariant.History.{status_after-snoc, legal-snoc}

abbrev pub event : Task → EventType → Status → Details → TaskEvent
event t e new d = record {
  task_id = t.id;
  event_type = e;
  old_status = t.status;
  new_status = new;
  details = d;
}

module _ (s : Settings) {tasks : List Task} {events : List TaskEvent} {next : ℕ}
    (h : Invariant s tasks events next) where
  pub replace-ids :
      (t u : Task) → find t.id tasks ≡ some u → All (λ v. v.id < next) (replace t tasks)
  replace-ids t u f =
      All-replace (λ v. v.id < next) t tasks
        (subst (λ i. i < next) (id-find t.id tasks u f)
          (All-find (λ v. v.id < next) t.id tasks u h.ids f))
        h.ids

  agrees-change :
      (t u t' : Task) (e : EventType) (new : Status) (d : Details) (i : ℕ)
      → find t.id tasks ≡ some u
      → t'.id ≡ t.id
      → t'.status ≡ new
      → status_after i none (events ++ event t e new d ∷ []) ≡ status_of (find i (replace t' tasks))
  agrees-change t u t' e new d i f g k =
      rw (status_after-snoc i none events (event t e new d))
        (ground (arith, h.agrees i, find-replace i t' tasks, f))

  legal-change :
      (t u : Task) (e : EventType) (new : Status) (d : Details) (i : ℕ)
      → find t.id tasks ≡ some u
      → u.status ≡ t.status
      → ((t.status =? new) || can_transition t.status new) ≡ true
      → legal i none (events ++ event t e new d ∷ []) ≡ true
  legal-change t u e new d i f g k =
      rw (legal-snoc i none events (event t e new d), h.legals i)
        (elim (Bool-cases (t.id == i)) [
          | inr p ↦ rw p
          | inl p ↦
              let same : t.id ≡ i = (==_iff t.id i).0 p in
              let now : status_after i none events ≡ some t.status =
                h.agrees i ∙ ap status_of (subst (λ j. find j tasks ≡ some u) same f) ∙ ap some g in
              rw (p, now, ==_refl (position t.status)) k
        ])

  -- A permitted change of the task `t`, whose row is `u`, written as the row `t'`.
  pub change-Invariant :
      (t u t' : Task) (e : EventType) (new : Status) (d : Details)
      → find t.id tasks ≡ some u
      → u.status ≡ t.status
      → ((t.status =? new) || can_transition t.status new) ≡ true
      → t'.id ≡ t.id
      → t'.status ≡ new
      → IsSettled s t'
      → Invariant s (replace t' tasks) (events ++ event t e new d ∷ []) next
  change-Invariant t u t' e new d f g k p q r = record {
    settled = All-replace (IsSettled s) t' tasks r h.settled;
    ids = replace-ids t' u (subst (λ j. find j tasks ≡ some u) (sym p) f);
    distinct = Distinct-replace t' tasks h.distinct;
    agrees = λ i. agrees-change t u t' e new d i f p q;
    legals = λ i. legal-change t u e new d i f g k;
  }

  -- A write of the row of `t`, whose row is `u`, that leaves the status.
  pub write-Invariant :
      (t u : Task)
      → find t.id tasks ≡ some u
      → u.status ≡ t.status
      → IsSettled s t
      → Invariant s (replace t tasks) events next
  write-Invariant t u f g r = record {
    settled = All-replace (IsSettled s) t tasks r h.settled;
    ids = replace-ids t u f;
    distinct = Distinct-replace t tasks h.distinct;
    agrees = λ i. ground (arith, h.agrees i, find-replace i t tasks, f);
    legals = h.legals;
  }

  -- An event that does not change the status.
  pub note-Invariant :
      (t u : Task) (e : EventType) (new : Status) (d : Details)
      → find t.id tasks ≡ some u
      → u.status ≡ t.status
      → t.status ≡ new
      → Invariant s tasks (events ++ event t e new d ∷ []) next
  note-Invariant t u e new d f g k = record {
    settled = h.settled;
    ids = h.ids;
    distinct = h.distinct;
    agrees =
        λ i. rw (status_after-snoc i none events (event t e new d)) (ground (arith, h.agrees i, f));
    legals = λ i. legal-change t u e new d i f g (rw k (rw (==_refl (position new))));
  }

pub find_above :
    (next i : ℕ) (tasks : List Task) → All (λ t. t.id < next) tasks → next ≤ i → find i tasks ≡ none
find_above next i [] h k = refl
find_above next i (t ∷ ts) h k = ground (arith, find_above next i ts h.1 k)

pub find-append :
    (i : ℕ) (t : Task) (ts : List Task)
    → find i (ts ++ t ∷ [])
      ≡ (if is_some (find i ts) then find i ts else if t.id == i then some t else none)
find-append i t [] = refl
find-append i t (u ∷ ts) = ground (arith, find-append i t ts)

ids_weaken : (next : ℕ) (ts : List Task) → All (λ t. t.id < next) ts → All (λ t. t.id < suc next) ts
ids_weaken next [] h = tt
ids_weaken next (t ∷ ts) h = (omega arith, ids_weaken next ts h.1)

-- A new task, with its first event.
pub insert-Invariant :
    (s : Settings) {tasks : List Task} {events : List TaskEvent} {next : ℕ}
    (h : Invariant s tasks events next) (t : Task) (e : EventType) (d : Details)
    → t.id ≡ next
    → t.status ≡ created
    → IsSettled s t
    → Invariant s (tasks ++ t ∷ []) (events ++ event t e created d ∷ []) (suc next)
insert-Invariant s {tasks} {events} {next} h t e d p q r = record {
  settled = All-append (IsSettled s) tasks (t ∷ []) h.settled (r, tt);
  ids =
      All-append (λ u. u.id < suc next) tasks (t ∷ []) (ids_weaken next tasks h.ids)
        (omega arith, tt);
  distinct =
      Distinct-snoc t tasks (subst (λ n. All (λ u. u.id < n) tasks) (sym p) h.ids) h.distinct;
  agrees = λ i.
      rw (status_after-snoc i none events (event t e created d), find-append i t tasks)
        (ground (arith, h.agrees i, find_above next i tasks h.ids));
  legals = λ i.
      rw (legal-snoc i none events (event t e created d), h.legals i)
        (ground (arith, h.agrees i, find_above next i tasks h.ids));
}
