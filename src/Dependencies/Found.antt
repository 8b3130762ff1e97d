-- ===== src/Dependencies/Found.antt =====
-- The search for a cycle in backend/app/services/dependencies.py raises only where there is one.
use mathlib.Core.Path.{subst}
use distributed_task_platfor.Prelude.{
  ℕ, zero, suc, ◌≡◌, refl, sym, ap, ◌∙◌, Bool, true, false, ◌||◌, Option, none, some, is_some, List,
  [], ◌∷◌, ◌==◌, ==_iff, ==_refl, member, arith, inl, inr, ◌⊎◌, Bool-cases, or_right,
}
use distributed_task_platfor.Model.Rows.{TaskDependency}
use distributed_task_platfor.Model.Db.{Db}
use distributed_task_platfor.Model.Result.{Error, err}
use distributed_task_platfor.StatusChange.{parents_of_rows}
use distributed_task_platfor.Dependencies.{
  push, finds_cycle, rounds, raise_on_cycle, ensure_no_cycle,
}
use distributed_task_platfor.Dependencies.Search.{Ancestor, itself, parent, search_ends}

member-push_inv :
    (ps queue : List ℕ) (x : ℕ)
    → member x (push ps queue) ≡ true
    → (member x ps ≡ true) ⊎ (member x queue ≡ true)
unfolding push
member-push_inv [] queue x h = inr h
member-push_inv (p ∷ ps) queue x h = elim (member-push_inv ps (p ∷ queue) x h) [
  | inl k ↦ inl (or_right (p == x) (member x ps) k)
  | inr k ↦ elim (Bool-cases (p == x)) [
    | inl e ↦ inl (rw e refl)
    | inr e ↦ inr (ground (arith, e, k))
  ]
]

-- A task from which a path of parents leads to the target.
abbrev pub Leads : List TaskDependency → ℕ → List ℕ → Type 0
Leads deps task_id queue = (x : ℕ) × (member x queue ≡ true) × Ancestor deps x task_id

finds-Leads :
    (deps : List TaskDependency) (task_id fuel : ℕ) (seen queue : List ℕ)
    → finds_cycle fuel deps task_id seen queue ≡ some true
    → Leads deps task_id queue
unfolding finds_cycle
finds-Leads deps task_id zero seen queue h = cc h
finds-Leads deps task_id (suc fuel) seen [] h = cc h
finds-Leads deps task_id (suc fuel) seen (current ∷ queue) h =
    let ps = parents_of_rows current deps in
    let whole = finds_cycle (suc fuel) deps task_id seen (current ∷ queue) in
    elim (Bool-cases (current == task_id)) [
      | inl e ↦ (
        current,
        ap (λ b. b || member current queue) (==_refl current),
        subst (λ y. Ancestor deps current y) ((==_iff current task_id).0 e) itself,
      )
      | inr e ↦ elim (Bool-cases (member current seen)) [
        | inl f ↦
            let q : whole ≡ finds_cycle fuel deps task_id seen queue = rw (e, f) refl in
            let (x, m, a) = finds-Leads deps task_id fuel seen queue (sym q ∙ h) in
            (x, or_right (current == x) (member x queue) m, a)
        | inr f ↦ elim (Bool-cases (member task_id ps)) [
          | inl g ↦
              (current, ap (λ b. b || member current queue) (==_refl current), parent g itself)
          | inr g ↦
              let q : whole ≡ finds_cycle fuel deps task_id (current ∷ seen) (push ps queue) =
                rw (e, f, g) refl in
              let (x, m, a) =
                finds-Leads deps task_id fuel (current ∷ seen) (push ps queue) (sym q ∙ h) in
              elim (member-push_inv ps queue x m) [
                | inl k ↦
                    (current, ap (λ b. b || member current queue) (==_refl current), parent k a)
                | inr k ↦ (x, or_right (current == x) (member x queue) k, a)
              ]
        ]
      ]
    ]

raised_on :
    (o : Option Bool) (e : Error) → is_some o ≡ true → raise_on_cycle o ≡ err e → o ≡ some true
raised_on none e k h = cc k
raised_on (some true) e k h = refl
raised_on (some false) e k h = cc h

pushed : (parents : List ℕ) (x : ℕ) → member x (push parents []) ≡ true → member x parents ≡ true
pushed parents x h = elim (member-push_inv parents [] x h) [ inl k ↦ k | inr k ↦ absurd (cc k) ]

-- If `ensure_no_cycle` raises for a task, then a path of parents leads from one of the tasks that it is
-- to depend on back to the task: no task is refused for another reason, a search without end included.
pub cycle_found :
    (task_id : ℕ) (parents : List ℕ) (db : Db) (e : Error)
    → ensure_no_cycle task_id parents db ≡ err e
    → Leads db.dependencies task_id parents
unfolding ensure_no_cycle
cycle_found task_id parents db e h =
    let found = raised_on _ e (search_ends db.dependencies task_id parents) h in
    let (x, m, a) =
      finds-Leads db.dependencies task_id (rounds db.dependencies parents) [] (push parents [])
        found in
    (x, pushed parents x m, a)
