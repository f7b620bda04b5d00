-- ===== src/Dispatcher.antt =====
-- monitoring/alert_dispatcher.py: alerts become deliveries, and deliveries are posted to a webhook.
pub mod Enqueuing
pub mod Webhook
pub mod Dispatching
pub mod Accounting
pub mod Backoff
mod Examples
