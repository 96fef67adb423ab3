-- ===== src/Webhooks.antt =====
-- internal/controller/webhooks: the delivery of events to the subscribers.
pub mod Sender
