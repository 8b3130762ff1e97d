-- ===== src/Webhooks/Subscriptions.antt =====
-- The rows of subscriptions as backend/app/api/routes/webhooks.py checks, changes and deletes them.
use distributed_task_platfor.Prelude.{
  ℕ, String, Bool, true, false, not, ◌||◌, Option, none, some, List, [], ◌∷◌, ◌==◌, ◌=ₛ◌, select,
  if◌then◌else◌,
}
use distributed_task_platfor.Model.Status.{EventType, event_name, event_types}
use distributed_task_platfor.Model.Rows.{WebhookSubscription}
use distributed_task_platfor.Model.Db.{Db}

abbrev pub names_event : String → List EventType → Bool
names_event e [] = false
names_event e (t ∷ ts) = (event_name t =ₛ e) || names_event e ts

abbrev pub allowed_event : String → Bool
allowed_event e = (e =ₛ "*") || names_event e event_types

-- `_validate_events`: false where it raises the exception with status 400.
unfoldable pub known_events : List String → Bool
known_events [] = true
known_events (e ∷ es) = if allowed_event e then known_events es else false

pub record WebhookUpdateRequest : Type 0 where
  pub name : Option String
  pub url : Option String
  pub events : Option (List String)
  pub is_active : Option Bool
  pub secret : Option String

-- `if body.field is not None: sub.field = body.field`.
abbrev pub or_old {ℓ} : {A : Type ℓ} → A → Option A → A
or_old a none = a
or_old a (some b) = b

unfoldable pub updated : WebhookUpdateRequest → WebhookSubscription → WebhookSubscription
updated b sub = record sub {
  name = or_old sub.name b.name;
  url = or_old sub.url b.url;
  events = or_old sub.events b.events;
  is_active = or_old sub.is_active b.is_active;
  secret = elim b.secret [ none ↦ sub.secret | some k ↦ some k ];
}

abbrev pub replace_subscription :
    WebhookSubscription → List WebhookSubscription → List WebhookSubscription
replace_subscription s [] = []
replace_subscription s (t ∷ ts) = (if t.id == s.id then s else t) ∷ replace_subscription s ts

-- `session.delete(sub)`: the rows of deliveries go with it, by `ondelete="CASCADE"`.
unfoldable pub delete_subscription : ℕ → Db → Db
delete_subscription id db = record db {
  subscriptions = select (λ t. not (t.id == id)) db.subscriptions;
  deliveries = select (λ d. not (d.subscription_id == id)) db.deliveries;
}
