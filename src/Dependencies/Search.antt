-- ===== src/Dependencies/Search.antt =====
-- The search for a cycle in backend/app/services/dependencies.py: it ends, and it finds the ancestors.
use distributed_task_platfor.Prelude.{
  ℕ, zero, suc, ◌+◌, ◌≤◌, ◌<◌, ◌≡◌, refl, sym, ◌∙◌, Bool, true, false, not, Option, none, some,
  is_some, List, [], ◌∷◌, ◌==◌, ==_iff, length, member, count, arith, inl, inr, ◌⊎◌, Bool-cases,
  or_right,
}
use distributed_task_platfor.Model.Rows.{TaskDependency}
use distributed_task_platfor.StatusChange.{parents_of_rows}
use distributed_task_platfor.Dependencies.{
  push, finds_cycle, rounds, raise_on_cycle, ensure_no_cycle,
}
use distributed_task_platfor.Model.Db.{Db}
use distributed_task_platfor.Model.Result.{ok}

length-push : (ps queue : List ℕ) → length (push ps queue) ≡ length ps + length queue
unfolding push
length-push [] queue = omega arith
length-push (p ∷ ps) queue = omega (arith, length-push ps (p ∷ queue))

-- The rows whose child has not been seen.
abbrev unseen : List ℕ → List TaskDependency → ℕ
unseen seen deps = count (λ d. not (member d.child_task_id seen)) deps

-- A task that is seen takes the rows of its parents out of the unseen ones.
unseen-see :
    (current : ℕ) (seen : List ℕ) (deps : List TaskDependency)
    → member current seen ≡ false
    → unseen (current ∷ seen) deps + length (parents_of_rows current deps) ≡ unseen seen deps
unseen-see current seen [] n = refl
unseen-see current seen (d ∷ deps) n = elim (Bool-cases (d.child_task_id == current)) [
  | inl e ↦
      let m : member d.child_task_id seen ≡ false = rw ((==_iff d.child_task_id current).0 e) n in
      ground (arith, e, m, unseen-see current seen deps n)
  | inr e ↦ ground (arith, e, unseen-see current seen deps n)
]

unseen-length : (seen : List ℕ) (deps : List TaskDependency) → unseen seen deps ≤ length deps
unseen-length seen [] = omega arith
unseen-length seen (d ∷ deps) = ground (arith, unseen-length seen deps)

-- Enough rounds for what is queued and what can still be queued.
finds_cycle-returns :
    (fuel : ℕ) (deps : List TaskDependency) (task_id : ℕ) (seen queue : List ℕ)
    → length queue + unseen seen deps < fuel
    → is_some (finds_cycle fuel deps task_id seen queue) ≡ true
unfolding finds_cycle
finds_cycle-returns zero deps task_id seen queue h = absurd (omega (arith, h))
finds_cycle-returns (suc fuel) deps task_id seen [] h = refl
finds_cycle-returns (suc fuel) deps task_id seen (current ∷ queue) h =
    elim (Bool-cases (current == task_id)) [
      | inl e ↦ rw e refl
      | inr e ↦ rw e (elim (Bool-cases (member current seen)) [
        | inl f ↦ rw f (finds_cycle-returns fuel deps task_id seen queue (omega (arith, h)))
        | inr f ↦ rw f (elim (Bool-cases (member task_id (parents_of_rows current deps))) [
          | inl g ↦ rw g refl
          | inr g ↦ rw g (
              finds_cycle-returns fuel deps task_id (current ∷ seen)
                (push (parents_of_rows current deps) queue)
                (omega (
                  arith,
                  h,
                  length-push (parents_of_rows current deps) queue,
                  unseen-see current seen deps f,
                )))
        ])
      ])
    ]

-- The search for a cycle ends within `rounds`, for every graph, cycles in it included.
pub search_ends :
    (deps : List TaskDependency) (task_id : ℕ) (parents : List ℕ)
    → is_some (finds_cycle (rounds deps parents) deps task_id [] (push parents [])) ≡ true
search_ends deps task_id parents =
    finds_cycle-returns (rounds deps parents) deps task_id [] (push parents [])
      (omega (arith, length-push parents [], unseen-length [] deps))

-- A path of parents that leads from the first task to the second, of no or more steps.
pub data Ancestor (deps : List TaskDependency) : ℕ → ℕ → Type 0 where
  itself : {x : ℕ} → Ancestor deps x x
  parent :
      {x p y : ℕ} → member p (parents_of_rows x deps) ≡ true → Ancestor deps p y → Ancestor deps x y

-- Where a task is that the search knows.
abbrev Known : List ℕ → List ℕ → ℕ → Type 0
Known seen queue x = (member x seen ≡ true) ⊎ (member x queue ≡ true)

-- Each parent of a task that is seen is known.
abbrev Closed : List TaskDependency → List ℕ → List ℕ → Type 0
Closed deps seen queue =
    (x p : ℕ) → member x seen ≡ true → member p (parents_of_rows x deps) ≡ true → Known seen queue p

pub member-push :
    (ps queue : List ℕ) (x : ℕ)
    → (member x ps ≡ true) ⊎ (member x queue ≡ true)
    → member x (push ps queue) ≡ true
unfolding push
member-push [] queue x (inl h) = absurd (cc h)
member-push [] queue x (inr h) = h
member-push (p ∷ ps) queue x (inl h) = elim (Bool-cases (p == x)) [
  | inl e ↦ member-push ps (p ∷ queue) x (inr (ground (arith, e)))
  | inr e ↦ member-push ps (p ∷ queue) x (inl (ground (arith, e, h)))
]
member-push (p ∷ ps) queue x (inr h) =
    member-push ps (p ∷ queue) x (inr (or_right (p == x) (member x queue) h))

seen_before :
    (seen queue : List ℕ) (current x : ℕ)
    → member current seen ≡ true
    → Known seen (current ∷ queue) x
    → Known seen queue x
seen_before seen queue current x h (inl k) = inl k
seen_before seen queue current x h (inr k) = elim (Bool-cases (current == x)) [
  | inl e ↦ inl (rw (sym ((==_iff current x).0 e)) h)
  | inr e ↦ inr (ground (arith, e, k))
]

seen_now :
    (seen ps queue : List ℕ) (current x : ℕ)
    → Known seen (current ∷ queue) x
    → Known (current ∷ seen) (push ps queue) x
seen_now seen ps queue current x (inl k) = inl (or_right (current == x) (member x seen) k)
seen_now seen ps queue current x (inr k) = elim (Bool-cases (current == x)) [
  | inl e ↦ inl (rw e refl)
  | inr e ↦ inr (member-push ps queue x (inr (ground (arith, e, k))))
]

-- A search that finds nothing has been past every ancestor.
module _ (deps : List TaskDependency) (task_id : ℕ) where
  Closed-Ancestor :
      (seen : List ℕ) (x y : ℕ)
      → Closed deps seen []
      → member x seen ≡ true
      → Ancestor deps x y
      → member y seen ≡ true
  Closed-Ancestor seen x y c h itself = h
  Closed-Ancestor seen x y c h (parent {p = p} m a) = elim (c x p h m) [
    | inl k ↦ Closed-Ancestor seen p y c k a
    | inr k ↦ absurd (cc k)
  ]

  Closed-see :
      (seen queue : List ℕ) (current : ℕ)
      → Closed deps seen (current ∷ queue)
      → Closed deps (current ∷ seen) (push (parents_of_rows current deps) queue)
  Closed-see seen queue current c x p h m = elim (Bool-cases (current == x)) [
    | inl e ↦
        inr
          (member-push (parents_of_rows current deps) queue p (inl (rw ((==_iff current x).0 e) m)))
    | inr e ↦
        seen_now seen (parents_of_rows current deps) queue current p
          (c x p (ground (arith, e, h)) m)
  ]

  clear :
      (fuel : ℕ) (seen queue : List ℕ)
      → finds_cycle fuel deps task_id seen queue ≡ some false
      → member task_id seen ≡ false
      → Closed deps seen queue
      → (x : ℕ) → Known seen queue x
      → ¬ Ancestor deps x task_id
  unfolding finds_cycle
  clear zero seen queue e n c x k a = cc e
  clear (suc fuel) seen [] e n c x (inl k) a = cc (Closed-Ancestor seen x task_id c k a, n)
  clear (suc fuel) seen [] e n c x (inr k) a = cc k
  clear (suc fuel) seen (current ∷ queue) h n c x k a =
      let ps = parents_of_rows current deps in
      elim (Bool-cases (current == task_id)) [
        | inl e ↦
            let q : finds_cycle (suc fuel) deps task_id seen (current ∷ queue) ≡ some true =
              rw e refl in
            cc (q, h)
        | inr e ↦ elim (Bool-cases (member current seen)) [
          | inl f ↦
              let q : finds_cycle (suc fuel) deps task_id seen (current ∷ queue)
                  ≡ finds_cycle fuel deps task_id seen queue =
                rw (e, f) refl in
              clear fuel seen queue (sym q ∙ h) n
                (λ y p i m. seen_before seen queue current p f (c y p i m)) x
                (seen_before seen queue current x f k) a
          | inr f ↦ elim (Bool-cases (member task_id ps)) [
            | inl g ↦
                let q : finds_cycle (suc fuel) deps task_id seen (current ∷ queue) ≡ some true =
                  rw (e, f, g) refl in
                cc (q, h)
            | inr g ↦
                let q : finds_cycle (suc fuel) deps task_id seen (current ∷ queue)
                    ≡ finds_cycle fuel deps task_id (current ∷ seen) (push ps queue) =
                  rw (e, f, g) refl in
                clear fuel (current ∷ seen) (push ps queue) (sym q ∙ h) (rw (e, n) refl)
                  (Closed-see seen queue current c) x (seen_now seen ps queue current x k) a
          ]
        ]
      ]

raised : (o : Option Bool) → raise_on_cycle o ≡ ok tt → o ≡ some false
raised none h = cc h
raised (some true) h = cc h
raised (some false) h = refl

-- If `ensure_no_cycle` returns for a task, then no path of parents leads from a task that it is to
-- depend on back to the task.
pub cycle_excluded :
    (task_id p : ℕ) (parents : List ℕ) (db : Db)
    → ensure_no_cycle task_id parents db ≡ ok tt
    → member p parents ≡ true
    → ¬ Ancestor db.dependencies p task_id
unfolding ensure_no_cycle
cycle_excluded task_id p parents db h m =
    clear db.dependencies task_id (rounds db.dependencies parents) [] (push parents []) (raised _ h)
      refl (λ x q i. absurd (cc i)) p (inr (member-push parents [] p (inl m)))
