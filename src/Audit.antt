-- ===== src/Audit.antt =====
-- The audit ledger: apps/api/audit-service (consumer, hasher, store, verify handler) and the
-- offline verifier cmd/olm-audit.
pub mod Json
pub mod Redact
pub mod Consumer
pub mod Canonical
pub mod Chain
mod Tests
