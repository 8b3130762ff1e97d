-- ===== src/StatusChange/Parents.antt =====
-- What `_all_parents_succeeded` of backend/app/services/dependencies.py decides.
use distributed_task_platfor.Prelude.{
  ap, if◌then◌else◌, ℕ, ◌+◌, ◌≡◌, refl, Bool, true, false, not, ◌&&◌, ◌||◌, List, [], ◌∷◌, ◌==◌,
  ltb, member, count, arith, inl, inr, Bool-cases,
}
use distributed_task_platfor.Model.Status.{Status, success, ◌=?◌, elem, eq_of_=?}
use distributed_task_platfor.Model.Rows.{Task}
use distributed_task_platfor.Model.Db.{Db}
use distributed_task_platfor.StatusChange.{
  statuses_of, only_success, succeeded, all_parents_succeeded, parents_of,
}

abbrev pub is_empty : {A : Type 0} → List A → Bool
is_empty [] = true
is_empty (x ∷ xs) = false

-- The rows with an id of the list, and those of them with another status than `success`.
abbrev pub found : List ℕ → List Task → ℕ
found ids ts = count (λ t. member t.id ids) ts

abbrev pub unfinished : List ℕ → List Task → ℕ
unfinished ids ts = count (λ t. member t.id ids && not (t.status =? success)) ts

abbrev finished : List ℕ → List Task → ℕ
finished ids ts = count (λ t. member t.id ids && (t.status =? success)) ts

statuses_of-success :
    (ids : List ℕ) (ts : List Task) → elem success (statuses_of ids ts) ≡ ltb 0 (finished ids ts)
statuses_of-success ids [] = refl
statuses_of-success ids (t ∷ ts) = ground (arith, statuses_of-success ids ts)

found-split : (ids : List ℕ) (ts : List Task) → found ids ts ≡ finished ids ts + unfinished ids ts
found-split ids [] = refl
found-split ids (t ∷ ts) = ground (arith, found-split ids ts)

-- A status is added to a set.
abbrev add : Status → List Status → List Status
add s ss = if not (elem s ss) then s ∷ ss else ss

add-empty : (s : Status) (ss : List Status) → is_empty (add s ss) ≡ false
add-empty s [] = refl
add-empty s (x ∷ ss) = elim (Bool-cases (elem s (x ∷ ss))) [ inl e ↦ rw e refl | inr e ↦ rw e refl ]

not_both : (x s : Status) → (x =? s) ≡ false → ((x =? success) && (s =? success)) ≡ false
not_both x s e = ground arith

add-only :
    (s : Status) (ss : List Status) (f u g : ℕ)
    → is_empty ss ≡ (f == 0)
    → only_success ss ≡ (ltb 0 f && (u == 0))
    → elem success ss ≡ ltb 0 g
    → f ≡ g + u
    → only_success (add s ss) ≡ ((if not (s =? success) then 1 else 0) + u == 0)
add-only s [] f u g a b c d = ground arith
add-only s (x ∷ []) f u g a b c d = elim (Bool-cases (x =? s)) [
  | inl e ↦
      let p : (x =? success) ≡ (s =? success) = ap (λ y. y =? success) (eq_of_=? x s e) in
      rw e (ground (arith, p, a, b, c, d))
  | inr e ↦ let n = not_both x s e in rw e (ground (arith, n, a, b, c, d))
]
add-only s (x ∷ y ∷ ss) f u g a b c d = elim (Bool-cases (elem s (x ∷ y ∷ ss))) [
  | inl e ↦ rw e (ground arith)
  | inr e ↦ rw e (ground arith)
]

statuses_of-empty :
    (ids : List ℕ) (ts : List Task) → is_empty (statuses_of ids ts) ≡ (found ids ts == 0)
statuses_of-empty ids [] = refl
statuses_of-empty ids (t ∷ ts) = elim (Bool-cases (member t.id ids)) [
  | inl e ↦ rw e (ground (arith, add-empty t.status (statuses_of ids ts)))
  | inr e ↦ rw e (ground (arith, statuses_of-empty ids ts))
]

statuses_of-only :
    (ids : List ℕ) (ts : List Task)
    → only_success (statuses_of ids ts) ≡ (ltb 0 (found ids ts) && (unfinished ids ts == 0))
statuses_of-only ids [] = refl
statuses_of-only ids (t ∷ ts) = elim (Bool-cases (member t.id ids)) [
  | inl e ↦ rw e (
      let f = found ids ts in
      let u = unfinished ids ts in
      let p =
        add-only t.status (statuses_of ids ts) f u (finished ids ts) (statuses_of-empty ids ts)
          (statuses_of-only ids ts) (statuses_of-success ids ts) (found-split ids ts) in
      ground (arith, p))
  | inr e ↦ rw e (ground (arith, statuses_of-only ids ts))
]

succeeded-test :
    (ids : List ℕ) (ts : List Task)
    → succeeded ids ts ≡ (is_empty ids || (ltb 0 (found ids ts) && (unfinished ids ts == 0)))
succeeded-test [] ts = refl
succeeded-test (p ∷ ps) ts = statuses_of-only (p ∷ ps) ts

-- All parents of a task have succeeded, as the code tests it on the set of their statuses, exactly if
-- the task has no parent, or at least one row has the id of a parent and every row that has one is in
-- `success`.
pub parents_succeeded :
    (i : ℕ) (db : Db)
    → all_parents_succeeded i db ≡ (
        is_empty (parents_of i db)
        || (ltb 0 (found (parents_of i db) db.tasks)
            && (unfinished (parents_of i db) db.tasks == 0)))
unfolding all_parents_succeeded
parents_succeeded i db = succeeded-test (parents_of i db) db.tasks
