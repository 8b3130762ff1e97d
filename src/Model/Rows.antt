-- ===== src/Model/Rows.antt =====
-- backend/app/models: a record for each table's row. A JSON object that the code only carries (a
-- task's payload, a result) is its text; those that the code builds are data types. Times are
-- microseconds.
use distributed_task_platfor.Prelude.{ℕ, String, Bool, Option, List}
use distributed_task_platfor.Model.Status.{Status, Priority, EventType}

pub record Task : Type 0 where
  pub id : ℕ
  pub task_type : String
  pub payload : String
  pub status : Status
  pub priority : Priority
  pub max_attempts : ℕ
  pub attempts : ℕ
  pub idempotency_key : Option String
  pub scheduled_at : Option ℕ
  pub started_at : Option ℕ
  pub finished_at : Option ℕ
  pub lease_owner : Option String
  pub lease_expires_at : Option ℕ
  pub outcome : Option String  -- the column `result`
  pub last_error : Option String
  pub created_by : Option ℕ
  pub batch_id : Option ℕ
  pub dlq_requeue_count : ℕ
  pub dlq_retry_at : Option ℕ
  pub created_at : ℕ
  pub updated_at : ℕ

pub data AttemptStatus : Type 0 where
  running success failed : AttemptStatus

pub record Attempt : Type 0 where
  pub task_id : ℕ
  pub attempt_number : ℕ
  pub worker_id : Option String
  pub status : AttemptStatus
  pub error_message : Option String
  pub outcome : Option String  -- the column `result`
  pub started_at : Option ℕ
  pub finished_at : Option ℕ

-- The `metadata` that the code gives an event.
pub data Details : Type 0 where
  empty : Details
  waiting_for : List ℕ → Details
  attempts_so_far : ℕ → Details
  attempt_number : ℕ → Details
  retry : ℕ → ℕ → ℕ → Details  -- attempt_number, backoff_seconds, retry_at
  failure : ℕ → String → Details  -- attempt_number, error
  dlq_cycle : ℕ → ℕ → Details  -- dlq_requeue_count, max_cycles
  lease_expired : Option String → Option ℕ → Details  -- lease_owner, attempt_number
  unblocked_by : ℕ → Details
  parent_terminal : ℕ → Status → Details  -- parent_task_id, parent_status

pub record TaskEvent : Type 0 where
  pub task_id : ℕ
  pub event_type : EventType
  pub old_status : Status
  pub new_status : Status
  pub details : Details

-- The body of an outbox event: the message that a worker decodes.
pub record Message : Type 0 where
  pub task_id : ℕ
  pub task_type : String
  pub payload : String
  pub priority : Priority
  pub reattempt : Bool

pub data OutboxStatus : Type 0 where
  pending sent : OutboxStatus

pub record OutboxEvent : Type 0 where
  pub id : ℕ
  pub routing_key : String
  pub payload : Message
  pub status : OutboxStatus
  pub attempts : ℕ
  pub processed_at : Option ℕ
  pub last_error : Option String

pub record TaskDependency : Type 0 where
  pub parent_task_id : ℕ
  pub child_task_id : ℕ

pub record WebhookSubscription : Type 0 where
  pub id : ℕ
  pub name : String
  pub url : String
  pub secret : Option String
  pub events : List String
  pub is_active : Bool

pub data DeliveryStatus : Type 0 where
  pending sent failed : DeliveryStatus

-- `_task_payload` of backend/app/services/webhooks.py.
pub record TaskSnapshot : Type 0 where
  pub id : ℕ
  pub task_type : String
  pub status : Status
  pub priority : Priority
  pub attempts : ℕ

pub record Notice : Type 0 where
  pub event : EventType
  pub subscription_id : ℕ
  pub delivery_id : ℕ
  pub timestamp : ℕ
  pub task : TaskSnapshot

pub record WebhookDelivery : Type 0 where
  pub id : ℕ
  pub subscription_id : ℕ
  pub event_type : EventType
  pub task_id : ℕ
  pub payload : Notice
  pub status : DeliveryStatus
  pub attempts : ℕ
  pub next_retry_at : ℕ
  pub last_error : Option String

pub data WorkerStatus : Type 0 where
  alive dead : WorkerStatus

pub record Worker : Type 0 where
  pub worker_id : String
  pub hostname : String
  pub pid : ℕ
  pub status : WorkerStatus
  pub started_at : ℕ
  pub last_heartbeat_at : ℕ

pub record AuditLog : Type 0 where
  pub id : ℕ
  pub actor_id : Option ℕ
  pub actor_username : Option String
  pub action : String  -- `details` is left out
  pub resource_type : String
  pub resource_id : Option String
  pub ip_address : Option String
  pub created_at : ℕ

pub record TaskBatch : Type 0 where
  pub id : ℕ
  pub name : String
  pub created_by : Option ℕ
  pub created_at : ℕ
