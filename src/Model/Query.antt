-- ===== src/Model/Query.antt =====
-- The queries that the listings share: filters that are built one by one, and a page of the rows that
-- pass them, newest first.
use mathlib.Core.List.{reverse}
use distributed_task_platfor.Prelude.{
  ℕ, String, Bool, true, false, ◌&&◌, Option, none, some, List, [], ◌∷◌, ◌=ₛ◌, take, drop, order_by,
  if◌then◌else◌,
}

-- `if value is not None: stmt.where(…)`.
abbrev pub filter_if {ℓ κ} : {A : Type ℓ} {R : Type κ} → Option A → (A → R → Bool) → List (R → Bool)
filter_if none p = []
filter_if (some a) p = p a ∷ []

-- `if value: stmt.where(…)` for a text.
abbrev pub filter_if_text {κ} : {R : Type κ} → Option String → (String → R → Bool) → List (R → Bool)
filter_if_text none p = []
filter_if_text (some s) p = if s =ₛ "" then [] else p s ∷ []

-- A comparison with a column that is `NULL` is not true.
abbrev pub column {ℓ} : {A : Type ℓ} → (A → Bool) → Option A → Bool
column p none = false
column p (some a) = p a

abbrev pub passes {κ} : {R : Type κ} → List (R → Bool) → R → Bool
passes [] t = true
passes (p ∷ ps) t = p t && passes ps t

-- `order_by(id.desc()).limit(limit).offset(offset)`; ids are unique.
abbrev pub page {κ} : {R : Type κ} → (R → ℕ) → ℕ → ℕ → List R → List R
page key limit offset rows = take limit (drop offset (reverse (order_by key rows)))
