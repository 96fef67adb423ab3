-- ===== src/Engine.antt =====
-- internal/controller/engine: the background loop that turns jobs into tasks.
pub mod Errors
pub mod Float
pub mod Chunks
pub mod Expand
pub mod Json
pub mod Condition
pub mod Flow
pub mod Walk
pub mod FlowJob
pub mod Dispatch
pub mod Scaling
pub mod Stale
