-- ===== src/Quota.antt =====
-- The quota-risk worker, apps/worker/quota-risk: the headers' parsers and the rolling state.
pub mod Numbers
pub mod Parser
pub mod Model
mod Tests
