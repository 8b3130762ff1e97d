-- ===== src/Model/Db/Rows.antt =====
-- The laws of reading and writing the row of a task.
use distributed_task_platfor.Prelude.{
  ℕ, ◌≡◌, inl, inr, Bool-cases, none, some, List, [], ◌∷◌, arith, ◌==◌, if◌then◌else◌, is_some, All,
}
use mathlib.Core.Path.{subst}
use distributed_task_platfor.Model.Rows.{Task}
use distributed_task_platfor.Model.Db.{find, replace}

pub id-find : (i : ℕ) (ts : List Task) (t : Task) → find i ts ≡ some t → t.id ≡ i
id-find i [] t h = cc
id-find i (u ∷ ts) t h = ground (arith, id-find i ts t)

pub find-replace :
    (j : ℕ) (t : Task) (ts : List Task)
    → find j (replace t ts)
      ≡ (if t.id == j then (if is_some (find j ts) then some t else none) else find j ts)
find-replace j t [] = ground arith
find-replace j t (u ∷ ts) = ground (arith, find-replace j t ts)

-- Writing the row that a task already has.
pub find-replace_self :
    (t : Task) (ts : List Task) {u : Task}
    → find t.id ts ≡ some u
    → find t.id (replace t ts) ≡ some t
find-replace_self t ts h = ground (arith, find-replace t.id t ts)

pub All-replace {κ} :
    (P : Task → Type κ) (t : Task) (ts : List Task) → P t → All P ts → All P (replace t ts)
All-replace P t [] h hs = tt
All-replace P t (u ∷ ts) h hs = elim (Bool-cases (u.id == t.id)) [
  | inl e ↦ rw e (h, All-replace P t ts h hs.1)
  | inr e ↦ rw e (hs.0, All-replace P t ts h hs.1)
]

pub All-find {κ} :
    (P : Task → Type κ) (i : ℕ) (ts : List Task) (t : Task) → All P ts → find i ts ≡ some t → P t
All-find P i [] t hs h = absurd (cc)
All-find P i (u ∷ ts) t hs h = elim (Bool-cases (u.id == i)) [
  | inl e ↦ let p : u ≡ t = ground arith in subst P p hs.0
  | inr e ↦ All-find P i ts t hs.1 (ground arith)
]
