-- ===== src/Gateway.antt =====
-- The gateway's usage sampling: apps/gateway/internal/proxy/streaming.go and
-- apps/gateway/internal/usage.
pub mod Sink
pub mod Tap
pub mod Framing
pub mod Chunks
pub mod Bounds
pub mod Usage
pub mod Observer
mod Tests
