-- ===== src/Model/Settings.antt =====
-- backend/app/core/config.py: the settings that the modelled code reads. Durations are in
-- microseconds, the resolution of a Python datetime; a backoff factor is a fraction.
use distributed_task_platfor.Prelude.{ℕ, Bool, true, String}

pub record Settings : Type 0 where
  pub queued_reconcile : ℕ
  pub auth_rate_limit_window : ℕ
  pub auth_rate_limit_max : ℕ
  pub task_max_attempts : ℕ
  pub retry_base : ℕ
  pub retry_backoff_factor : ℕ  -- the factor is this over `retry_backoff_unit`, such as 3 / 2
  pub retry_backoff_unit : ℕ
  pub retry_max_delay : ℕ
  pub dlq_retry_enabled : Bool
  pub dlq_retry_interval : ℕ
  pub dlq_retry_max_cycles : ℕ
  pub worker_heartbeat_timeout : ℕ
  pub task_lease : ℕ
  pub routing_key_task_created : String
  pub batch_max_tasks : ℕ
  pub access_token_expire_minutes : ℕ
  pub refresh_token_expire_days : ℕ
  pub admin_username : String
  pub api_token_prefix : String
  pub api_token_expire_days : ℕ
  pub webhook_max_attempts : ℕ
  pub webhook_retry_backoff : ℕ
  pub retention_cleanup_batch_size : ℕ
  pub retention_done_tasks_days : ℕ
  pub retention_dlq_tasks_days : ℕ
  pub retention_outbox_sent_days : ℕ
  pub retention_audit_days : ℕ
  pub rate_limit_redis_enabled : Bool
  pub api_rate_limit_max : ℕ
  pub api_rate_limit_window : ℕ
  pub ws_connect_limit_max : ℕ
  pub ws_connect_limit_window : ℕ
  pub task_create_limit_max : ℕ
  pub task_create_limit_window : ℕ

-- The values that stand in the class body.
abbrev pub default_settings : Settings
default_settings = record {
  queued_reconcile = 60_000_000;
  auth_rate_limit_window = 60_000_000;
  auth_rate_limit_max = 10;
  task_max_attempts = 3;
  retry_base = 1_000_000;
  retry_backoff_factor = 2;
  retry_backoff_unit = 1;
  retry_max_delay = 300_000_000;
  dlq_retry_enabled = true;
  dlq_retry_interval = 300_000_000;
  dlq_retry_max_cycles = 3;
  worker_heartbeat_timeout = 60_000_000;
  task_lease = 60_000_000;
  routing_key_task_created = "task_created";
  batch_max_tasks = 1000;
  access_token_expire_minutes = 60;
  refresh_token_expire_days = 7;
  admin_username = "admin";
  api_token_prefix = "tp_";
  api_token_expire_days = 90;
  webhook_max_attempts = 5;
  webhook_retry_backoff = 60_000_000;
  retention_cleanup_batch_size = 200;
  retention_done_tasks_days = 30;
  retention_dlq_tasks_days = 30;
  retention_outbox_sent_days = 7;
  retention_audit_days = 365;
  rate_limit_redis_enabled = true;
  api_rate_limit_max = 120;
  api_rate_limit_window = 60_000_000;
  ws_connect_limit_max = 20;
  ws_connect_limit_window = 60_000_000;
  task_create_limit_max = 30;
  task_create_limit_window = 60_000_000;
}
