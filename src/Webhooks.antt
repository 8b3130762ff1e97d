-- ===== src/Webhooks.antt =====
-- backend/app/services/webhooks.py
pub mod Enqueue
pub mod Dispatch
pub mod Bounds
pub mod Notified
pub mod Sending
pub mod Subscriptions
