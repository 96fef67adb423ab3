-- ===== src/Agent.antt =====
-- internal/agent: the service on an encoding host.
pub mod Journal
pub mod Runner
