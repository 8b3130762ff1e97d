-- ===== src/Outbox/Relay.antt =====
-- One pass of the relay of backend/app/services/outbox.py.
use distributed_task_platfor.Prelude.{
  ◌&&◌, or_right, not, insert_by, insert_by, ℕ, zero, suc, ◌≤◌, ◌≡◌, refl, ap, ◌∙◌, String, true,
  Option, none, List, [], ◌∷◌, ◌++◌, ◌==◌, ==_refl, length, take, select, count, member, order_by,
  All, All-weaken, arith, inl, inr, Bool-cases,
}
use distributed_task_platfor.Model.Rows.{OutboxEvent}
use distributed_task_platfor.Model.Db.{Db}
use distributed_task_platfor.Outbox.{
  is_pending, pending_events, replace_outbox, settle, publish_each, publish_pending_events,
}

length-take : {A : Type 0} (n : ℕ) (xs : List A) → length (take n xs) ≤ n
length-take zero xs = omega arith
length-take (suc n) [] = omega arith
length-take (suc n) (x ∷ xs) = omega (arith, length-take n xs)

-- The rows that are pending and whose id is not in a list.
abbrev pub left : List ℕ → List OutboxEvent → ℕ
left done rows = count (λ r. is_pending r && not (member r.id done)) rows

abbrev outbox_ids : List OutboxEvent → List ℕ
outbox_ids [] = []
outbox_ids (o ∷ os) = o.id ∷ outbox_ids os

-- A row that the broker has taken is no more pending, and the other rows stay.
left-sent :
    (now : ℕ) (o : OutboxEvent) (done : List ℕ) (rows : List OutboxEvent)
    → left done (replace_outbox (settle now none o) rows) ≡ left (o.id ∷ done) rows
unfolding settle
left-sent now o done [] = refl
left-sent now o done (r ∷ rows) = ground (arith, left-sent now o done rows)

publish-left :
    (now : ℕ) (publish : OutboxEvent → Option String) (os : List OutboxEvent) (done : List ℕ)
    (db : Db)
    → All (λ o. publish o ≡ none) os
    → left done (publish_each now publish os db).0.outbox ≡ left (outbox_ids os ++ done) db.outbox
unfolding publish_each
publish-left now publish [] done db h = refl
publish-left now publish (o ∷ os) done db h =
    let db' : Db = record db { outbox = replace_outbox (settle now none o) db.outbox } in
    rw h.0
      (publish-left now publish os done db' h.1 ∙ left-sent now o (outbox_ids os ++ done) db.outbox)

append-nil : {A : Type 0} (xs : List A) → (xs ++ []) ≡ xs
append-nil [] = refl
append-nil (x ∷ xs) = ap (λ ys. x ∷ ys) (append-nil xs)

length-insert :
    (key : OutboxEvent → ℕ) (o : OutboxEvent) (os : List OutboxEvent)
    → length (insert_by key o os) ≡ suc (length os)
unfolding insert_by
length-insert key o [] = refl
length-insert key o (x ∷ os) = ground (arith, length-insert key o os)

length-order :
    (key : OutboxEvent → ℕ) (os : List OutboxEvent) → length (order_by key os) ≡ length os
unfolding order_by
length-order key [] = refl
length-order key (o ∷ os) =
    omega (arith, length-insert key o (order_by key os), length-order key os)

take-all : (n : ℕ) (os : List OutboxEvent) → length os ≤ n → take n os ≡ os
take-all zero [] h = refl
take-all zero (o ∷ os) h = absurd (omega (arith, h))
take-all (suc n) [] h = refl
take-all (suc n) (o ∷ os) h = ap (λ xs. o ∷ xs) (take-all n os (omega (arith, h)))

member-insert :
    (key : OutboxEvent → ℕ) (i : ℕ) (o : OutboxEvent) (os : List OutboxEvent)
    → member i (outbox_ids (insert_by key o os)) ≡ member i (outbox_ids (o ∷ os))
unfolding insert_by
member-insert key i o [] = refl
member-insert key i o (x ∷ os) = ground (arith, member-insert key i o os)

member-order :
    (key : OutboxEvent → ℕ) (i : ℕ) (os : List OutboxEvent)
    → member i (outbox_ids (order_by key os)) ≡ member i (outbox_ids os)
unfolding order_by
member-order key i [] = refl
member-order key i (o ∷ os) =
    member-insert key i o (order_by key os) ∙ ground (arith, member-order key i os)

left-none :
    (done : List ℕ) (rows : List OutboxEvent)
    → All (λ r. is_pending r ≡ true → member r.id done ≡ true) rows
    → left done rows ≡ 0
left-none done [] h = refl
left-none done (r ∷ rows) h = ground (arith, h.0, left-none done rows h.1)

-- A pending row is among the selected ones.
abbrev Selected : List OutboxEvent → OutboxEvent → Type 0
Selected rows r = is_pending r ≡ true → member r.id (outbox_ids (select is_pending rows)) ≡ true

more-Selected :
    (rows : List OutboxEvent) (r x : OutboxEvent) → Selected rows x → Selected (r ∷ rows) x
more-Selected rows r x h p = elim (Bool-cases (is_pending r)) [
  | inl e ↦ rw e (or_right (r.id == x.id) (member x.id (outbox_ids (select is_pending rows))) (h p))
  | inr e ↦ rw e (h p)
]

all-Selected : (rows : List OutboxEvent) → All (Selected rows) rows
all-Selected [] = tt
all-Selected (r ∷ rows) = (
  λ p. rw (p, ==_refl r.id) refl,
  All-weaken (Selected rows) (Selected (r ∷ rows)) rows (more-Selected rows r) (all-Selected rows),
)

none-left : (rows : List OutboxEvent) → left [] rows ≡ 0 → select is_pending rows ≡ []
none-left [] h = refl
none-left (r ∷ rows) h = ground (arith, h, none-left rows)

-- If the broker takes every message of a pass over the outbox, and the limit is at least the number of
-- pending rows, then no row is pending after it.
pub relay_drains :
    (now limit : ℕ) (publish : OutboxEvent → Option String) (db : Db)
    → All (λ o. publish o ≡ none) (pending_events limit db)
    → length (select is_pending db.outbox) ≤ limit
    → select is_pending (publish_pending_events now publish limit db).0.outbox ≡ []
unfolding publish_pending_events pending_events
relay_drains now limit publish db h k =
    let found = order_by (λ o. o.id) (select is_pending db.outbox) in
    let n : length found ≡ length (select is_pending db.outbox) =
      length-order (λ o. o.id) (select is_pending db.outbox) in
    let whole : take limit found ≡ found = take-all limit found (omega (arith, n, k)) in
    let done = outbox_ids (take limit found) in
    (let taken : All (λ r. is_pending r ≡ true → member r.id done ≡ true) db.outbox =
        All-weaken (Selected db.outbox) (λ r. is_pending r ≡ true → member r.id done ≡ true)
          db.outbox
          (λ r g p. rw (whole, member-order (λ o. o.id) r.id (select is_pending db.outbox)) (g p))
          (all-Selected db.outbox) in
      none-left (publish_each now publish (take limit found) db).0.outbox (
        publish-left now publish (take limit found) [] db h
        ∙ rw (append-nil done) (left-none done db.outbox taken)))
