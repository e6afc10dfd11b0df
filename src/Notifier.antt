-- ===== src/Notifier.antt =====
-- The alert notifier, apps/worker/notifier: routing, the delivery ledger, and the fan-out with its
-- retries.
pub mod Router
pub mod Ledger
pub mod Backoff
pub mod Scrub
pub mod Fanout
mod Tests
