-- ===== src/Model/Status.antt =====
-- backend/app/models/task.py and event.py: the statuses, priorities and event types, and the tables
-- of statuses at the top of backend/app/services/tasks.py.
use distributed_task_platfor.Prelude.{
  ℕ, zero, suc, String, ◌≡◌, refl, sym, ap, ◌∙◌, ==_iff, Bool, true, false, List, [], ◌∷◌, ◌||◌,
  ◌==◌,
}

pub data Status : Type 0 where
  created queued running retry_scheduled scheduled success failed cancelled dead_letter timeout :
      Status

pub data Priority : Type 0 where
  critical high normal low : Priority

pub data EventType : Type 0 where
  task_created task_queued task_scheduled task_invalidated task_running : EventType
  task_attempt_started task_attempt_failed task_succeeded task_failed task_cancelled : EventType
  task_retried task_retry_scheduled task_requeued task_dead_lettered task_dlq_requeued : EventType
  task_blocked task_unblocked : EventType

-- The place of a status in `TASK_STATUSES`; two statuses are compared by it.
abbrev pub position : Status → ℕ
position created = 0
position queued = 1
position running = 2
position retry_scheduled = 3
position scheduled = 4
position success = 5
position failed = 6
position cancelled = 7
position dead_letter = 8
position timeout = 9

infix 50 ◌=?◌
abbrev pub ◌=?◌ : Status → Status → Bool
s =? t = position s == position t

abbrev pub elem : Status → List Status → Bool
elem s [] = false
elem s (t ∷ ts) = (t =? s) || elem s ts

-- `VALID_TRANSITIONS.get(old, set())`.
abbrev pub valid_transitions : Status → List Status
valid_transitions created = queued ∷ scheduled ∷ cancelled ∷ []
valid_transitions queued = running ∷ cancelled ∷ []
valid_transitions running =
    success ∷ failed ∷ retry_scheduled ∷ cancelled ∷ dead_letter ∷ queued ∷ []
valid_transitions retry_scheduled = queued ∷ cancelled ∷ []
valid_transitions scheduled = queued ∷ cancelled ∷ []
valid_transitions failed = queued ∷ []
valid_transitions cancelled = queued ∷ []
valid_transitions dead_letter = queued ∷ []
valid_transitions _ = []

abbrev pub terminal : List Status
terminal = success ∷ failed ∷ cancelled ∷ dead_letter ∷ []

abbrev pub cancelable : List Status
cancelable = created ∷ queued ∷ running ∷ retry_scheduled ∷ scheduled ∷ []

abbrev pub retryable : List Status
retryable = failed ∷ cancelled ∷ dead_letter ∷ []

abbrev pub can_transition : Status → Status → Bool
can_transition old new = elem new (valid_transitions old)

-- The texts of `TASK_EVENT_TYPES`.
pub event_name : EventType → String
event_name task_created = "task.created"
event_name task_queued = "task.queued"
event_name task_scheduled = "task.scheduled"
event_name task_invalidated = "task.invalidated"
event_name task_running = "task.running"
event_name task_attempt_started = "task.attempt_started"
event_name task_attempt_failed = "task.attempt_failed"
event_name task_succeeded = "task.succeeded"
event_name task_failed = "task.failed"
event_name task_cancelled = "task.cancelled"
event_name task_retried = "task.retried"
event_name task_retry_scheduled = "task.retry_scheduled"
event_name task_requeued = "task.requeued"
event_name task_dead_lettered = "task.dead_lettered"
event_name task_dlq_requeued = "task.dlq_requeued"
event_name task_blocked = "task.blocked"
event_name task_unblocked = "task.unblocked"

-- `TASK_EVENT_TYPES`.
abbrev pub event_types : List EventType
event_types =
    task_created ∷ task_queued ∷ task_scheduled ∷ task_invalidated ∷ task_running
    ∷ task_attempt_started ∷ task_attempt_failed ∷ task_succeeded ∷ task_failed ∷ task_cancelled
    ∷ task_retried ∷ task_retry_scheduled ∷ task_requeued ∷ task_dead_lettered ∷ task_dlq_requeued
    ∷ task_blocked ∷ task_unblocked ∷ []

of_position : ℕ → Status
of_position zero = created
of_position (suc zero) = queued
of_position (suc (suc zero)) = running
of_position (suc (suc (suc zero))) = retry_scheduled
of_position (suc (suc (suc (suc zero)))) = scheduled
of_position (suc (suc (suc (suc (suc zero))))) = success
of_position (suc (suc (suc (suc (suc (suc zero)))))) = failed
of_position (suc (suc (suc (suc (suc (suc (suc zero))))))) = cancelled
of_position (suc (suc (suc (suc (suc (suc (suc (suc zero)))))))) = dead_letter
of_position _ = timeout

of_position-position : (s : Status) → of_position (position s) ≡ s
unfolding of_position
of_position-position created = refl
of_position-position _ = refl

pub eq_of_=? : (s t : Status) → (s =? t) ≡ true → s ≡ t
eq_of_=? s t h =
    sym (of_position-position s)
    ∙ ap of_position ((==_iff (position s) (position t)).0 h)
    ∙ of_position-position t
