-- ===== src/Webhooks/Notified.antt =====
-- The deliveries that a change of status puts into the database, `enqueue_for` of
-- backend/app/services/webhooks.py as `set_status` of tasks.py calls it.
use mathlib.Core.Path.{subst}
use distributed_task_platfor.Prelude.{
  append_nil, append_cons, ℕ, suc, String, ◌≡◌, refl, sym, ◌∙◌, Bool, true, false, ◌&&◌, List, [],
  ◌∷◌, ◌++◌, ◌=ₛ◌, =ₛ_iff, inl, inr, ◌⊎◌, Bool-cases, member_text, if◌then◌else◌,
}
use distributed_task_platfor.Model.Status.{Status, EventType, event_name}
use distributed_task_platfor.Model.Rows.{
  Task, Details, DeliveryStatus, WebhookSubscription, WebhookDelivery,
}
use distributed_task_platfor.Model.Db.{Db, put_task}
use distributed_task_platfor.StatusChange.{assign_status, record_event, change}
use distributed_task_platfor.Webhooks.Enqueue.{
  matches, new_delivery, enqueue_delivery, enqueue_each, enqueue_for,
}

-- A name among those that a subscription lists.
abbrev pub Listed : String → List String → Type 0
Listed name [] = ⊥
Listed name (x ∷ xs) = (x ≡ name) ⊎ Listed name xs

-- A subscription is to be told of an event: it is active and lists the event, or `*` for all.
abbrev pub Wants : WebhookSubscription → EventType → Type 0
Wants sub e = (sub.is_active ≡ true) × (Listed "*" sub.events ⊎ Listed (event_name e) sub.events)

-- The delivery with that id for a subscription, as it is before the first attempt.
pub record IsNotice (now n : ℕ) (e : EventType) (t : Task) (sub : WebhookSubscription)
    (d : WebhookDelivery) : Type 0 where
  pub id : d.id ≡ n
  pub subscription : d.subscription_id ≡ sub.id
  pub event : d.event_type ≡ e
  pub task : d.task_id ≡ t.id
  pub waits : d.status ≡ DeliveryStatus.pending
  pub untried : d.attempts ≡ 0
  pub due : d.next_retry_at ≡ now
  pub told_event : d.payload.event ≡ e
  pub told_subscription : d.payload.subscription_id ≡ sub.id
  pub told_delivery : d.payload.delivery_id ≡ n
  pub told_task : d.payload.task.id ≡ t.id
  pub told_status : d.payload.task.status ≡ t.status

-- The new deliveries, one for each subscription that wants the event, in the order of the
-- subscriptions and with ids from a first one on.
pub data Notified (now : ℕ) (e : EventType) (t : Task)
    : ℕ → List WebhookSubscription → List WebhookDelivery → Type 0 where
  finished : {n : ℕ} → Notified now e t n [] []
  wanted :
      {n : ℕ} {sub : WebhookSubscription} {subs : List WebhookSubscription} {d : WebhookDelivery}
      {ds : List WebhookDelivery}
      → Wants sub e
      → IsNotice now n e t sub d
      → Notified now e t (suc n) subs ds
      → Notified now e t n (sub ∷ subs) (d ∷ ds)
  unwanted :
      {n : ℕ} {sub : WebhookSubscription} {subs : List WebhookSubscription}
      {ds : List WebhookDelivery}
      → ¬ Wants sub e
      → Notified now e t n subs ds
      → Notified now e t n (sub ∷ subs) ds

listed : (name : String) (xs : List String) → member_text name xs ≡ true → Listed name xs
listed name [] h = cc h
listed name (x ∷ xs) h = elim (Bool-cases (x =ₛ name)) [
  | inl e ↦ inl ((=ₛ_iff x name).0 e)
  | inr e ↦ inr (listed name xs (sym (rw e refl) ∙ h))
]

unlisted : (name : String) (xs : List String) → member_text name xs ≡ false → ¬ Listed name xs
unlisted name [] h k = k
unlisted name (x ∷ xs) h (inl p) =
    let e : (x =ₛ name) ≡ true = (=ₛ_iff x name).1 p in
    let q : true ≡ false = sym (rw e refl) ∙ h in cc q
unlisted name (x ∷ xs) h (inr k) = elim (Bool-cases (x =ₛ name)) [
  | inl e ↦ let q : true ≡ false = sym (rw e refl) ∙ h in cc q
  | inr e ↦ unlisted name xs (sym (rw e refl) ∙ h) k
]

-- The test of the code is that of `Wants`.
tested :
    (sub : WebhookSubscription) (e : EventType)
    → ((sub.is_active && matches sub e) ≡ true → Wants sub e)
      × ((sub.is_active && matches sub e) ≡ false → ¬ Wants sub e)
unfolding matches
tested sub e = elim (Bool-cases sub.is_active) [
  | inr a ↦ (
    λ h. let q : false ≡ true = sym (rw a refl) ∙ h in cc q,
    λ h w. let q : false ≡ true = sym a ∙ w.0 in cc q,
  )
  | inl a ↦ elim (Bool-cases (member_text "*" sub.events)) [
    | inl f ↦ (
      λ h. (a, inl (listed "*" sub.events f)),
      λ h w. let q : true ≡ false = sym (rw (a, f) refl) ∙ h in cc q,
    )
    | inr f ↦ elim (Bool-cases (member_text (event_name e) sub.events)) [
      | inl g ↦ (
        λ h. (a, inr (listed (event_name e) sub.events g)),
        λ h w. let q : true ≡ false = sym (rw (a, f, g) refl) ∙ h in cc q,
      )
      | inr g ↦ (
        λ h. let q : false ≡ true = sym (rw (a, f, g) refl) ∙ h in cc q,
        λ h w. elim w.1 [
          | inl k ↦ unlisted "*" sub.events f k
          | inr k ↦ unlisted (event_name e) sub.events g k
        ],
      )
    ]
  ]
]

abbrev Appended : ℕ → EventType → Task → List WebhookSubscription → Db → Db → Type 0
Appended now e t subs a b =
    (ds : List WebhookDelivery) × (b.deliveries ≡ (a.deliveries ++ ds))
    × Notified now e t a.next_delivery_id subs ds

each-Notified :
    (now : ℕ) (e : EventType) (t : Task) (subs : List WebhookSubscription) (db : Db)
    → Appended now e t subs db (enqueue_each now e t subs db)
unfolding enqueue_each enqueue_delivery
each-Notified now e t [] db = ([], sym (append_nil db.deliveries), finished)
each-Notified now e t (sub ∷ subs) db =
    let next_if : Bool → Db = λ b. if b then enqueue_delivery now e t sub db else db in
    let Motive : Bool → Type 0 =
      λ b. Appended now e t (sub ∷ subs) db (enqueue_each now e t subs (next_if b)) in
    elim (Bool-cases (sub.is_active && matches sub e)) [
      | inr f ↦
          let (ds, p, k) = each-Notified now e t subs db in
          subst Motive (sym f) (ds, p, unwanted ((tested sub e).1 f) k)
      | inl f ↦
          let next = enqueue_delivery now e t sub db in
          let (ds, p, k) = each-Notified now e t subs next in
          let facts : IsNotice now db.next_delivery_id e t sub (new_delivery now e t sub db) =
            record {
              id = refl;
              subscription = refl;
              event = refl;
              task = refl;
              waits = refl;
              untried = refl;
              due = refl;
              told_event = refl;
              told_subscription = refl;
              told_delivery = refl;
              told_task = refl;
              told_status = refl;
            } in
          subst Motive (sym f) (
            new_delivery now e t sub db ∷ ds,
            p ∙ append_cons db.deliveries (new_delivery now e t sub db) ds,
            wanted ((tested sub e).0 f) facts k,
          )
    ]

-- A permitted change of status adds, at the end of the deliveries, one for each subscription that is
-- active and lists the event of the change or `*`, in the order of the subscriptions, and none for the
-- others. Each has the next id and the ids of its subscription and of the task, waits without an
-- attempt, is due at once, and tells of the event and of the new status of the task.
pub each_subscriber_notified :
    (now : ℕ) (t : Task) (new : Status) (e : EventType) (d : Details) (db : Db)
    → let t' = assign_status now t new in
      (ds : List WebhookDelivery) × ((change now t new e d db).deliveries ≡ (db.deliveries ++ ds))
      × Notified now e t' db.next_delivery_id db.subscriptions ds
      × (t'.status ≡ new)
unfolding change enqueue_for put_task record_event assign_status
each_subscriber_notified now t new e d db =
    let t' = assign_status now t new in
    let (ds, p, k) =
      each-Notified now e t' db.subscriptions (put_task t' (record_event t e new d db)) in
    (ds, p, k, refl)
