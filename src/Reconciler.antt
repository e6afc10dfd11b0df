-- ===== src/Reconciler.antt =====
-- The cost reconciler, apps/worker/reconciler.
pub mod Store
pub mod Joiner
pub mod Closer
pub mod Windows
mod Tests
