-- ===== src/Invariant/History.antt =====
-- The log with one more event.
use distributed_task_platfor.Prelude.{
  ℕ, ◌≡◌, refl, Bool, true, false, not, ◌&&◌, ◌||◌, Option, List, [], ◌∷◌, ◌++◌, ◌==◌,
}
use distributed_task_platfor.Model.Status.{Status}
use distributed_task_platfor.Model.Rows.{TaskEvent}
use distributed_task_platfor.Invariant.{follow, status_after, legal_step, legal}

pub status_after-snoc :
    (i : ℕ) (acc : Option Status) (es : List TaskEvent) (e : TaskEvent)
    → status_after i acc (es ++ e ∷ []) ≡ follow i (status_after i acc es) e
status_after-snoc i acc [] e = refl
status_after-snoc i acc (x ∷ es) e = status_after-snoc i (follow i acc x) es e

and_assoc : (a b c : Bool) → (a && (b && c)) ≡ ((a && b) && c)
and_assoc true b c = refl
and_assoc false b c = refl

and_true : (a : Bool) → (a && true) ≡ a
and_true true = refl
and_true false = refl

pub legal-snoc :
    (i : ℕ) (acc : Option Status) (es : List TaskEvent) (e : TaskEvent)
    → legal i acc (es ++ e ∷ [])
      ≡ (legal i acc es && (not (e.task_id == i) || legal_step (status_after i acc es) e))
legal-snoc i acc [] e = search and_true
legal-snoc i acc (x ∷ es) e = rw (legal-snoc i (follow i acc x) es e) (search and_assoc)
