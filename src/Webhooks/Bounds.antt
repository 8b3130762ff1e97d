-- ===== src/Webhooks/Bounds.antt =====
-- What backend/app/services/webhooks.py makes of the deliveries.
use distributed_task_platfor.Prelude.{
  ℕ, select, order_by, ◌+◌, ◌≤◌, ◌<◌, ◌≡◌, refl, String, Bool, true, false, ◌&&◌, Option, none,
  some, List, [], ◌∷◌, ◌==◌, leb, All, All-append, All-take, All-order_by, arith, inl, inr,
  Bool-cases, if◌then◌else◌,
}
use distributed_task_platfor.Model.Status.{EventType}
use distributed_task_platfor.Model.Rows.{Task, WebhookSubscription, WebhookDelivery, Notice}
use distributed_task_platfor.Model.Settings.{Settings}
use distributed_task_platfor.Model.Db.{Db}
use distributed_task_platfor.Webhooks.Enqueue.{matches, enqueue_delivery, enqueue_each, enqueue_for}
use distributed_task_platfor.Webhooks.Dispatch.{
  is_pending, due, is_due, find_subscription, replace_delivery, settle, dispatch, dispatch_each,
  dispatch_due,
}

-- A delivery that waits has been tried less often than the limit, and none more often.
abbrev pub Bounded : Settings → WebhookDelivery → Type 0
Bounded s d =
    (d.attempts ≤ s.webhook_max_attempts)
    × (is_pending d ≡ true → d.attempts < s.webhook_max_attempts)

either : {A : Type 0} (P : A → Type 0) (b : Bool) (x y : A) → P x → P y → P (if b then x else y)
either P true x y h k = h
either P false x y h k = k

by_case :
    {A : Type 0} (P : A → Bool → Type 0) (b : Bool) (x y : A)
    → P x true
    → P y false
    → P (if b then x else y) b
by_case P true x y h k = h
by_case P false x y h k = k

and_left : (a b : Bool) → (a && b) ≡ true → a ≡ true
and_left true b h = refl
and_left false b h = h

module _ (s : Settings) (now : ℕ) where
  settle-Bounded :
      (r : Option String) (d : WebhookDelivery)
      → is_pending d ≡ true
      → Bounded s d
      → Bounded s (settle s now r d)
  unfolding settle
  settle-Bounded none d p h = (h.0, λ q. h.1 p)
  settle-Bounded (some e) d p h = elim (Bool-cases (leb s.webhook_max_attempts (d.attempts + 1))) [
    | inl f ↦ rw f (omega (arith, h.1 p), λ q. absurd (cc q))
    | inr f ↦
        let n : d.attempts + 1 < s.webhook_max_attempts = ground (arith, f) in
        rw f (omega (arith, n), λ q. n)
  ]

  replace-Bounded :
      (d : WebhookDelivery) (ds : List WebhookDelivery)
      → Bounded s d
      → All (Bounded s) ds
      → All (Bounded s) (replace_delivery d ds)
  replace-Bounded d [] h k = tt
  replace-Bounded d (x ∷ ds) h k = elim (Bool-cases (x.id == d.id)) [
    | inl e ↦ rw e (h, replace-Bounded d ds h k.1)
    | inr e ↦ rw e (k.0, replace-Bounded d ds h k.1)
  ]

  module _ (send : WebhookSubscription → Notice → Option String) where
    dispatch-Bounded :
        (sub : Option WebhookSubscription) (d : WebhookDelivery)
        → is_pending d ≡ true
        → Bounded s d
        → Bounded s (dispatch s now send sub d)
    unfolding dispatch
    dispatch-Bounded none d p h = (h.0, λ q. absurd (cc q))
    dispatch-Bounded (some sub) d p h =
        either (Bounded s) sub.is_active (settle s now (send sub d.payload) d) _
          (settle-Bounded (send sub d.payload) d p h) (h.0, λ q. absurd (cc q))

    each-Bounded :
        (ds : List WebhookDelivery) (db : Db)
        → All (λ d. (is_pending d ≡ true) × Bounded s d) ds
        → All (Bounded s) db.deliveries
        → All (Bounded s) (dispatch_each s now send ds db).deliveries
    unfolding dispatch_each
    each-Bounded [] db h k = k
    each-Bounded (d ∷ ds) db h k = each-Bounded ds _ h.1 (
        replace-Bounded
          (dispatch s now send (find_subscription d.subscription_id db.subscriptions) d)
          db.deliveries
          (dispatch-Bounded (find_subscription d.subscription_id db.subscriptions) d h.0.0 h.0.1) k)

  due-Bounded :
      (ds : List WebhookDelivery)
      → All (Bounded s) ds
      → All (λ d. (is_pending d ≡ true) × Bounded s d) (select (is_due now) ds)
  due-Bounded [] h = tt
  due-Bounded (d ∷ ds) h = elim (Bool-cases (is_due now d)) [
    | inl e ↦ rw e ((and_left (is_pending d) (leb d.next_retry_at now) e, h.0), due-Bounded ds h.1)
    | inr e ↦ rw e (due-Bounded ds h.1)
  ]

  enqueue-Bounded :
      (e : EventType) (t : Task) (subs : List WebhookSubscription) (db : Db)
      → 0 < s.webhook_max_attempts
      → All (Bounded s) db.deliveries
      → All (Bounded s) (enqueue_each now e t subs db).deliveries
  unfolding enqueue_each enqueue_delivery
  enqueue-Bounded e t [] db m h = h
  enqueue-Bounded e t (sub ∷ subs) db m h = enqueue-Bounded e t subs _ m (
      either (λ a. All (Bounded s) a.deliveries) (sub.is_active && matches sub e)
        (enqueue_delivery now e t sub db) db
        (All-append (Bounded s) db.deliveries _ h ((omega arith, λ q. m), tt)) h)

-- Where the limit of attempts is at least 1, every delivery stays within it, and one that waits below
-- it, through the dispatch of due deliveries, whatever the servers answer, and through the enqueueing
-- of new ones.
pub deliveries-Bounded :
    (s : Settings) (now limit : ℕ) (send : WebhookSubscription → Notice → Option String)
    (e : EventType) (t : Task) (db : Db)
    → 0 < s.webhook_max_attempts
    → All (Bounded s) db.deliveries
    → All (Bounded s) (dispatch_due s now send limit db).0.deliveries
      × All (Bounded s) (enqueue_for now e t db).deliveries
unfolding dispatch_due due enqueue_for
deliveries-Bounded s now limit send e t db m h =
    let P : WebhookDelivery → Type 0 = λ d. (is_pending d ≡ true) × Bounded s d in
    (
      each-Bounded s now send (due now limit db) db
          (All-take P limit (order_by (λ d. d.id) (select (is_due now) db.deliveries)) (
            All-order_by P (λ d. d.id) (select (is_due now) db.deliveries)
              (due-Bounded s now db.deliveries h)))
          h,
      enqueue-Bounded s now e t db.subscriptions db m h,
    )
