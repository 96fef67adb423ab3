-- ===== src/Db.antt =====
-- internal/db: the rows of the PostgreSQL tables that the controller works on, and the queries of
-- queries.go that read and change them. `Types` has the rows, `Tasks` and `Jobs` the queries.
pub mod Types
pub mod Tasks
pub mod Retry
pub mod Claim
pub mod Jobs
pub mod IsValid
pub mod Agents
pub mod Sources
pub mod Schedules
pub mod Valid
