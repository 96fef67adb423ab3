-- ===== src/Db/Valid.antt =====
-- What holds of the tables between any two statements, and that each statement keeps it.
mod Tasks
mod Jobs
mod Agents
mod Sources
pub use Tasks.*
pub use Jobs.*
pub use Agents.*
pub use Sources.*

pub ruleset table_keeps = (task_keeps, job_keeps, agent_keeps, source_keeps)
