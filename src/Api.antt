-- ===== src/Api.antt =====
-- internal/controller/api: the handlers of the REST API that change jobs, agents and sources.
pub mod Jobs
pub mod Chain
pub mod Agents
pub mod Sources
pub mod Valid
