-- ===== src/Model/Db/Distinct.antt =====
-- Rows of tasks with distinct ids: the primary key of the table.
use distributed_task_platfor.Prelude.{
  ℕ, zero, suc, ◌<◌, ◌≡◌, Bool, true, false, Bool-cases, inl, inr, some, List, [], ◌∷◌, ◌++◌, arith,
  ◌==◌, leb, select, take, insert_by, order_by, All, select-passes, All-select, All-take,
  All-weaken, All-insert, All-order_by,
}
use distributed_task_platfor.Model.Rows.{Task}
use distributed_task_platfor.Model.Db.{find, replace}

abbrev pub Differs : Task → Task → Type 0
Differs t u = (u.id == t.id) ≡ false

abbrev pub Distinct : List Task → Type 0
Distinct [] = Unit
Distinct (t ∷ ts) = All (Differs t) ts × Distinct ts

Differs-replace :
    (t u : Task) (ts : List Task) → All (Differs t) ts → All (Differs t) (replace u ts)
Differs-replace t u [] h = tt
Differs-replace t u (v ∷ ts) h = elim (Bool-cases (v.id == u.id)) [
  | inl e ↦ rw e (ground arith, Differs-replace t u ts h.1)
  | inr e ↦ rw e (h.0, Differs-replace t u ts h.1)
]

Differs-weaken :
    (t u : Task) (ts : List Task) → t.id ≡ u.id → All (Differs u) ts → All (Differs t) ts
Differs-weaken t u ts e h = All-weaken (Differs u) (Differs t) ts (λ v k. ground arith) h

pub Distinct-replace : (t : Task) (ts : List Task) → Distinct ts → Distinct (replace t ts)
Distinct-replace t [] h = tt
Distinct-replace t (u ∷ ts) h = elim (Bool-cases (u.id == t.id)) [
  | inl e ↦ rw e (
    Differs-weaken t u (replace t ts) (ground arith) (Differs-replace u t ts h.0),
    Distinct-replace t ts h.1,
  )
  | inr e ↦ rw e (Differs-replace u t ts h.0, Distinct-replace t ts h.1)
]

-- A new row with an id above the others.
pub Distinct-snoc :
    (t : Task) (ts : List Task) → All (λ u. u.id < t.id) ts → Distinct ts → Distinct (ts ++ t ∷ [])
Distinct-snoc t [] k h = (tt, tt)
Distinct-snoc t (u ∷ ts) k h = (All-snoc u ts t (ground arith) h.0, Distinct-snoc t ts k.1 h.1)
  where
    All-snoc :
        (u : Task) (ts : List Task) (t : Task)
        → Differs u t
        → All (Differs u) ts
        → All (Differs u) (ts ++ t ∷ [])
    All-snoc u [] t d k = (d, tt)
    All-snoc u (v ∷ ts) t d k = (k.0, All-snoc u ts t d k.1)

pub Distinct-select : (p : Task → Bool) (ts : List Task) → Distinct ts → Distinct (select p ts)
Distinct-select p [] h = tt
Distinct-select p (t ∷ ts) h = elim (Bool-cases (p t)) [
  | inl e ↦ rw e (All-select (Differs t) p ts h.0, Distinct-select p ts h.1)
  | inr e ↦ rw e (Distinct-select p ts h.1)
]

Distinct-insert :
    (key : Task → ℕ) (t : Task) (ts : List Task)
    → All (Differs t) ts
    → Distinct ts
    → Distinct (insert_by key t ts)
unfolding insert_by
Distinct-insert key t [] k h = (tt, tt)
Distinct-insert key t (u ∷ ts) k h = elim (Bool-cases (leb (key t) (key u))) [
  | inl e ↦ rw e (k, h)
  | inr e ↦
      rw e (All-insert (Differs u) key t ts (ground arith) h.0, Distinct-insert key t ts k.1 h.1)
]

Distinct-order_by : (key : Task → ℕ) (ts : List Task) → Distinct ts → Distinct (order_by key ts)
unfolding order_by
Distinct-order_by key [] h = tt
Distinct-order_by key (t ∷ ts) h =
    Distinct-insert key t (order_by key ts) (All-order_by (Differs t) key ts h.0)
      (Distinct-order_by key ts h.1)

Distinct-take : (n : ℕ) (ts : List Task) → Distinct ts → Distinct (take n ts)
Distinct-take zero ts h = tt
Distinct-take (suc n) [] h = tt
Distinct-take (suc n) (t ∷ ts) h = (All-take (Differs t) n ts h.0, Distinct-take n ts h.1)

-- A row is the one that a query by its id finds.
abbrev pub IsRowOf : List Task → Task → Type 0
IsRowOf ts t = find t.id ts ≡ some t

rows_below :
    (u : Task) (us : List Task) (ts : List Task)
    → All (Differs u) ts
    → All (IsRowOf us) ts
    → All (IsRowOf (u ∷ us)) ts
rows_below u us [] d h = tt
rows_below u us (t ∷ ts) d h = (ground arith, rows_below u us ts d.1 h.1)

pub all_rows : (ts : List Task) → Distinct ts → All (IsRowOf ts) ts
all_rows [] h = tt
all_rows (t ∷ ts) h = (ground arith, rows_below t ts ts h.0 (all_rows ts h.1))

-- The rows of `select(…).where(p).order_by(key).limit(n)`.
abbrev pub query : (Task → Bool) → (Task → ℕ) → ℕ → List Task → List Task
query p key n ts = take n (order_by key (select p ts))

pub Distinct-query :
    (p : Task → Bool) (key : Task → ℕ) (n : ℕ) (ts : List Task)
    → Distinct ts
    → Distinct (query p key n ts)
Distinct-query p key n ts h = Distinct-take n _ (Distinct-order_by key _ (Distinct-select p ts h))

pub All-query {κ} :
    (P : Task → Type κ) (p : Task → Bool) (key : Task → ℕ) (n : ℕ) (ts : List Task)
    → All P ts
    → All P (query p key n ts)
All-query P p key n ts h = All-take P n _ (All-order_by P key _ (All-select P p ts h))

-- What the selected rows are: distinct rows of the table that pass the test.
pub query-passes :
    (p : Task → Bool) (key : Task → ℕ) (n : ℕ) (ts : List Task)
    → All (λ t. p t ≡ true) (query p key n ts)
query-passes p key n ts =
    All-take (λ t. p t ≡ true) n _ (All-order_by (λ t. p t ≡ true) key _ (select-passes p ts))
