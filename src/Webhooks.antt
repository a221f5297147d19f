-- ===== src/Webhooks.antt =====
-- src/twin/webhooks: the outbox of events and the sender that delivers it.
pub mod Outbox
pub mod Streams
pub mod Sender
pub mod Deliveries
