-- ===== src/Api/Sound/Others.antt =====
-- What the handlers of webhooks and batches keep of the tables.
use distributed_task_platfor.Prelude.{
  ℕ, refl, Option, none, some, List, inl, inr, Bool-cases, is_some,
}
use distributed_task_platfor.Model.Rows.{WebhookSubscription}
use distributed_task_platfor.Model.Settings.{Settings}
use distributed_task_platfor.Model.Db.{Db}
use distributed_task_platfor.Model.Result.{Result, ok, err, task_conflict, Ensures}
use distributed_task_platfor.Auth.{User}
use distributed_task_platfor.Webhooks.Subscriptions.{known_events, WebhookUpdateRequest}
use distributed_task_platfor.Webhooks.Sending.{Posted}
use distributed_task_platfor.Invariant.Reach.{Step, Reach, empty_db}
use distributed_task_platfor.Invariant.Sequences.{create_batch-Reach, cancel_batch-Reach}
use distributed_task_platfor.Api.{Site, Request, External}
use distributed_task_platfor.Api.Schemas.{specs_of, WebhookCreateRequest, BatchCreateRequest}
use distributed_task_platfor.Api.Webhooks.{
  create_webhook_as, known_if_given, update_found, update_webhook_as, delete_found,
  delete_webhook_as, test_found,
}
use distributed_task_platfor.Api.Batches.{
  batch_made, create_batch_as, batch_cancelled, cancel_batch_as, find_batch,
}
use distributed_task_platfor.Api.Keeps.{After}
use distributed_task_platfor.Api.Sound.{IsSound, audited}

module _ (s : Settings) (x : External) where
  subscribed :
      (subs : List WebhookSubscription) (db : Db)
      → Reach s empty_db db
      → Reach s empty_db (record db { subscriptions = subs })
  subscribed subs db h = Reach.next h (Step.subscribes subs refl)

  pub create_webhook-IsSound :
      (b : WebhookCreateRequest) (req : Request) (u : User) (site : Site)
      → IsSound s site
      → After (IsSound s) (create_webhook_as s x b req u site)
  unfolding create_webhook_as
  create_webhook-IsSound b req u site h = elim (Bool-cases (known_events b.events)) [
    | inl e ↦
        rw e (record {
          reach = audited s x req.now _ _ (subscribed _ site.db h.reach);
          names = h.names;
        })
    | inr e ↦ rw e tt
  ]

  update_found-IsSound :
      (b : WebhookUpdateRequest) (req : Request) (u : User) (site : Site)
      (o : Option WebhookSubscription)
      → IsSound s site
      → After (IsSound s) (update_found s x b req u site o)
  update_found-IsSound b req u site none h = tt
  update_found-IsSound b req u site (some sub) h = elim (Bool-cases (known_if_given s x b.events)) [
    | inl e ↦
        rw e (record {
          reach = audited s x req.now _ _ (subscribed _ site.db h.reach);
          names = h.names;
        })
    | inr e ↦ rw e tt
  ]

  pub update_webhook-IsSound :
      (id : ℕ) (b : WebhookUpdateRequest) (req : Request) (u : User) (site : Site)
      → IsSound s site
      → After (IsSound s) (update_webhook_as s x id b req u site)
  unfolding update_webhook_as
  update_webhook-IsSound id b req u site h = update_found-IsSound b req u site _ h

  delete_found-IsSound :
      (id : ℕ) (req : Request) (u : User) (site : Site) (o : Option WebhookSubscription)
      → IsSound s site
      → After (IsSound s) (delete_found s x id req u site o)
  delete_found-IsSound id req u site none h = tt
  delete_found-IsSound id req u site (some sub) h = record {
    reach = Reach.next (audited s x req.now _ site.db h.reach) (Step.unsubscribes id refl);
    names = h.names;
  }

  pub delete_webhook-IsSound :
      (id : ℕ) (req : Request) (u : User) (site : Site)
      → IsSound s site
      → After (IsSound s) (delete_webhook_as s x id req u site)
  unfolding delete_webhook_as
  delete_webhook-IsSound id req u site h = delete_found-IsSound id req u site _ h

  pub test_found-IsSound :
      (req : Request) (post : WebhookSubscription → Posted) (u : User) (site : Site)
      (o : Option WebhookSubscription)
      → IsSound s site
      → After (IsSound s) (test_found s x req post u site o)
  test_found-IsSound req post u site none h = tt
  test_found-IsSound req post u site (some sub) h = record {
    reach = audited s x req.now _ site.db h.reach;
    names = h.names;
  }

  batch_made-IsSound :
      (b : BatchCreateRequest) (req : Request) (u : User) (site : Site) (r : Result (Db × List ℕ))
      → Ensures (λ (p : Db × List ℕ). Reach s empty_db p.0) r
      → IsSound s site
      → After (IsSound s) (batch_made s x b req u site r)
  batch_made-IsSound b req u site (err e) k h = tt
  batch_made-IsSound b req u site (ok (db, ids)) k h = record {
    reach = audited s x req.now _ db k;
    names = h.names;
  }

  pub create_batch-IsSound :
      (depth : ℕ) (b : BatchCreateRequest) (req : Request) (u : User) (site : Site)
      → IsSound s site
      → After (IsSound s) (create_batch_as s x depth b req u site)
  unfolding create_batch_as
  create_batch-IsSound depth b req u site h =
      batch_made-IsSound b req u site _
        (create_batch-Reach s empty_db depth req.now site.next_batch_id (some u.id)
          (specs_of b.tasks) site.db h.reach)
        h

  batch_cancelled-IsSound :
      (id : ℕ) (req : Request) (u : User) (site : Site) (r : Result (Db × ℕ × List ℕ))
      → Ensures (λ (p : Db × ℕ × List ℕ). Reach s empty_db p.0) r
      → IsSound s site
      → After (IsSound s) (batch_cancelled s x id req u site r)
  batch_cancelled-IsSound id req u site (err task_conflict) k h = tt
  batch_cancelled-IsSound id req u site (err _) k h = tt
  batch_cancelled-IsSound id req u site (ok (db, n, conflicts)) k h = record {
    reach = audited s x req.now _ db k;
    names = h.names;
  }

  pub cancel_batch-IsSound :
      (depth id : ℕ) (req : Request) (u : User) (site : Site)
      → IsSound s site
      → After (IsSound s) (cancel_batch_as s x depth id req u site)
  unfolding cancel_batch_as
  cancel_batch-IsSound depth id req u site h =
      batch_cancelled-IsSound id req u site _
        (cancel_batch-Reach s empty_db depth req.now id (is_some (find_batch id site.batches))
          site.db h.reach)
        h
