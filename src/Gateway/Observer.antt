-- ===== src/Gateway/Observer.antt =====
-- The observer at the request boundary: apps/gateway/internal/observer/observer.go, with the event and
-- the emitter of apps/gateway/internal/busproducer/busproducer.go.
pub mod Routes
pub mod Events
pub mod Members
pub mod Accepted
pub mod Counted
pub mod Models
mod Tests
