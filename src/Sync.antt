-- ===== src/Sync.antt =====
-- sync/: queues without a bound, and one-to-many notifiers.
pub mod Queue
pub mod Notifier
pub mod QueuedNotifier
