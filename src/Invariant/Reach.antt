-- ===== src/Invariant/Reach.antt =====
-- Every database that transactions can lead to, in any order and at any times.
use distributed_task_platfor.Prelude.{
  ℕ, String, ◌≡◌, refl, sym, true, Option, none, some, List, [], ◌∷◌, inl, inr, Option-cases,
}
use mathlib.Core.Path.{subst}
use distributed_task_platfor.Model.Rows.{
  Task, OutboxEvent, WebhookSubscription, WebhookDelivery, Notice,
}
use distributed_task_platfor.Model.Settings.{Settings}
use distributed_task_platfor.Model.Db.{Db, get_task}
use distributed_task_platfor.Model.Result.{Result, ok, Ensures}
use distributed_task_platfor.Tasks.{TaskSpec, create_task, manual_retry, cancel_task}
use distributed_task_platfor.Attempts.{renew_lease}
use distributed_task_platfor.Worker.{Execution, claim, finish}
use distributed_task_platfor.Scheduler.{
  requeue_due_tasks, requeue_dlq_tasks, recover_stuck_tasks, requeue_orphaned_queued_tasks,
  purge_old_data,
}
use distributed_task_platfor.Workers.{beat, register_worker, heartbeat, find_worker}
use distributed_task_platfor.Outbox.{publish_pending_events, publish_each, pending_events}
use distributed_task_platfor.Webhooks.Dispatch.{dispatch_due, dispatch_each, due}
use distributed_task_platfor.Webhooks.Subscriptions.{delete_subscription}
use distributed_task_platfor.Audit.{Entry, add_audit}
use distributed_task_platfor.Invariant.{Holds, IsSettled, legal, status_after, status_of}
use distributed_task_platfor.Invariant.Creation.{
  HoldsIf, create_task-Holds, manual_retry-Holds, cancel_task-Holds,
}
use distributed_task_platfor.Invariant.Claim.{claim-Holds}
use distributed_task_platfor.Invariant.Steps.{IsSettled-find}
use distributed_task_platfor.Invariant.Runs.{finish-Holds}
use distributed_task_platfor.Invariant.Coordinator.{
  requeue_due_tasks-Holds, requeue_dlq_tasks-Holds, recover_stuck_tasks-Holds,
  requeue_orphaned_queued_tasks-Holds,
}
use distributed_task_platfor.Invariant.Upkeep.{renew_lease-Holds, purge_old_data-Holds}

-- A database with no rows.
abbrev pub empty_db : Db
empty_db = record {
  tasks = [];
  attempts = [];
  events = [];
  outbox = [];
  dependencies = [];
  subscriptions = [];
  deliveries = [];
  workers = [];
  audit = [];
  next_task_id = 1;
  next_outbox_id = 1;
  next_delivery_id = 1;
  next_audit_id = 1;
}

-- One committed transaction, at any time, by any process of the platform.
pub data Step (s : Settings) (a : Db) (b : Db) : Type 0 where
  creates : (depth now : ℕ) (spec : TaskSpec) → create_task s depth now spec a ≡ ok b → Step s a b
  retries : (depth now id : ℕ) → manual_retry s depth now id a ≡ ok (some b) → Step s a b
  cancels : (depth now id : ℕ) → cancel_task s depth now id a ≡ ok (some b) → Step s a b
  claims :
      (depth now : ℕ) (worker : String) (id : ℕ)
      → claim s depth now worker id a ≡ ok (some b)
      → Step s a b
  finishes :
      (depth now : ℕ) (worker : String) (id n : ℕ) (held : Task) (x : Execution)
      → finish s depth now worker id n held x a ≡ ok b
      → Step s a b
  renews :
      (now id : ℕ) (worker : String) → b ≡ (renew_lease now id worker s.task_lease a).1 → Step s a b
  requeues : (depth now limit : ℕ) → requeue_due_tasks s depth now limit a ≡ ok b → Step s a b
  revives : (depth now limit : ℕ) → requeue_dlq_tasks s depth now limit a ≡ ok b → Step s a b
  recovers : (depth now limit : ℕ) → recover_stuck_tasks s depth now limit a ≡ ok b → Step s a b
  republishes : (now limit : ℕ) → b ≡ (requeue_orphaned_queued_tasks s now limit a).0 → Step s a b
  purges : (now : ℕ) (limit : Option ℕ) → b ≡ (purge_old_data s now limit a).0 → Step s a b
  publishes :
      (now limit : ℕ) (publish : OutboxEvent → Option String)
      → b ≡ (publish_pending_events now publish limit a).0
      → Step s a b
  dispatches :
      (now limit : ℕ) (send : WebhookSubscription → Notice → Option String)
      → b ≡ (dispatch_due s now send limit a).0
      → Step s a b
  beats :
      (now : ℕ) (worker hostname : String) (pid : ℕ)
      → b ≡ beat now worker hostname pid a
      → Step s a b
  -- the routes that manage webhooks
  subscribes :
      (subs : List WebhookSubscription) → b ≡ record a { subscriptions = subs } → Step s a b
  unsubscribes : (id : ℕ) → b ≡ delete_subscription id a → Step s a b
  -- the entry of the log that a route writes
  audits : (now : ℕ) (e : Entry) → b ≡ add_audit now e a → Step s a b

pub data Reach (s : Settings) (a : Db) : Db → Type 0 where
  here : Reach s a a
  next : {b c : Db} → Reach s a b → Step s b c → Reach s a c

module _ (s : Settings) where
  returned-Holds : (r : Result Db) (b : Db) → Ensures (Holds s) r → r ≡ ok b → Holds s b
  returned-Holds r b h e = subst (Ensures (Holds s)) e h

  found-Holds :
      (now : ℕ) (r : Result (Option Db)) (b : Db)
      → Ensures (HoldsIf s now) r
      → r ≡ ok (some b)
      → Holds s b
  found-Holds now r b h e = subst (Ensures (HoldsIf s now)) e h

  publish-Holds :
      (now : ℕ) (publish : OutboxEvent → Option String) (os : List OutboxEvent) (db : Db)
      → Holds s db
      → Holds s (publish_each now publish os db).0
  unfolding publish_each
  publish-Holds now publish [] db h = h
  publish-Holds now publish (o ∷ os) db h = publish-Holds now publish os _ h

  dispatch-Holds :
      (now : ℕ) (send : WebhookSubscription → Notice → Option String) (ds : List WebhookDelivery)
      (db : Db)
      → Holds s db
      → Holds s (dispatch_each s now send ds db)
  unfolding dispatch_each
  dispatch-Holds now send [] db h = h
  dispatch-Holds now send (d ∷ ds) db h = dispatch-Holds now send ds _ h

  beat-Holds :
      (now : ℕ) (worker hostname : String) (pid : ℕ) (db : Db)
      → Holds s db
      → Holds s (beat now worker hostname pid db)
  unfolding beat register_worker heartbeat
  beat-Holds now worker hostname pid db h = elim (Option-cases (find_worker worker db.workers)) [
    | inl e ↦ rw (e, beat, heartbeat) h
    | inr (w, e) ↦ rw (e, beat, heartbeat) h
  ]

  pub Step-Holds : {a b : Db} → Step s a b → Holds s a → Holds s b
  Step-Holds {a} {b} (creates depth now spec e) h =
      returned-Holds _ b (create_task-Holds s now depth spec a h) e
  Step-Holds {a} {b} (retries depth now id e) h =
      found-Holds now _ b (manual_retry-Holds s now depth id a h) e
  Step-Holds {a} {b} (cancels depth now id e) h =
      found-Holds now _ b (cancel_task-Holds s now depth id a h) e
  Step-Holds {a} {b} (claims depth now worker id e) h =
      found-Holds now _ b (claim-Holds s now worker id a h depth) e
  Step-Holds {a} {b} (finishes depth now worker id n held x e) h =
      returned-Holds _ b (finish-Holds s now depth worker id n held x a h) e
  Step-Holds {a} {b} (renews now id worker e) h =
      subst (Holds s) (sym e) (renew_lease-Holds s now id worker s.task_lease a h)
  Step-Holds {a} {b} (requeues depth now limit e) h =
      returned-Holds _ b (requeue_due_tasks-Holds s depth now limit a h) e
  Step-Holds {a} {b} (revives depth now limit e) h =
      returned-Holds _ b (requeue_dlq_tasks-Holds s depth now limit a h) e
  Step-Holds {a} {b} (recovers depth now limit e) h =
      returned-Holds _ b (recover_stuck_tasks-Holds s depth now limit a h) e
  Step-Holds {a} {b} (republishes now limit e) h =
      subst (Holds s) (sym e) (requeue_orphaned_queued_tasks-Holds s now limit a h)
  Step-Holds {a} {b} (purges now limit e) h =
      subst (Holds s) (sym e) (purge_old_data-Holds s now limit a h)
  Step-Holds {a} {b} (publishes now limit publish e) h =
      subst (Holds s) (sym e)
        (unfold publish_pending_events in publish-Holds now publish (pending_events limit a) a h)
  Step-Holds {a} {b} (dispatches now limit send e) h =
      subst (Holds s) (sym e) (unfold dispatch_due in dispatch-Holds now send (due now limit a) a h)
  Step-Holds {a} {b} (beats now worker hostname pid e) h =
      subst (Holds s) (sym e) (beat-Holds now worker hostname pid a h)
  Step-Holds {a} {b} (subscribes subs e) h = subst (Holds s) (sym e) h
  Step-Holds {a} {b} (unsubscribes id e) h =
      subst (Holds s) (sym e) (unfold delete_subscription in h)
  Step-Holds {a} {b} (audits now entry e) h = subst (Holds s) (sym e) (unfold add_audit in h)

  pub empty-Holds : Holds s empty_db
  empty-Holds = record {
    settled = tt;
    ids = tt;
    distinct = tt;
    agrees = λ i. refl;
    legals = λ i. refl;
  }

  -- Whatever transactions run, in any order, the rows of tasks stay settled with distinct ids, and
  -- the log of events of every task is a permitted walk that ends in the status of its row.
  pub Reach-Holds : {db : Db} → Reach s empty_db db → Holds s db
  Reach-Holds here = empty-Holds
  Reach-Holds (next r t) = Step-Holds t (Reach-Holds r)

-- For every database that transactions lead to from the empty one, in any order, and every id: the
-- events of the task start with `created`, each starts from the status that the one before it left
-- and keeps it or makes a transition of `VALID_TRANSITIONS`, and the last status is that of the
-- task's row; an id with no row has no event.
pub history_replays :
    (s : Settings) (db : Db) (i : ℕ)
    → Reach s empty_db db
    → (legal i none db.events ≡ true) × (status_after i none db.events ≡ status_of (get_task i db))
unfolding get_task
history_replays s db i r = ((Reach-Holds s r).legals i, (Reach-Holds s r).agrees i)

-- For every database that transactions lead to from the empty one, every task's row is settled: a
-- terminal status comes with `finished_at`, `queued` with neither `finished_at` nor `scheduled_at`,
-- `scheduled` and `retry_scheduled` with `scheduled_at`, `running` with `started_at`; the lease
-- columns are filled exactly while the task runs; and the count of DLQ cycles is at most
-- `dlq_retry_max_cycles`.
pub rows-IsSettled :
    (s : Settings) (db : Db) (i : ℕ) (t : Task)
    → Reach s empty_db db
    → get_task i db ≡ some t
    → IsSettled s t
rows-IsSettled s db i t r g = IsSettled-find s 0 i t db (Reach-Holds s r) g
