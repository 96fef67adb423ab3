-- ===== src/Db/IsValid.antt =====
-- The constraints of internal/db/migrations on the rows, as one invariant of the tables.
use text.Mathlib.Text.{◌==◌ as str_eq}
use encodeswarmr.Prelude.{◌<◌, ◌≡◌, Bool, true, List, ◌==◌, All, Distinct}
use encodeswarmr.Db.Types.{RowId, Task, Job, Agent, Source, Db}
use encodeswarmr.Db.Tasks.{same_slot}
use encodeswarmr.Db.Jobs.{status_allowed, job_type_allowed}

abbrev pub same_task_id : Task → Task → Bool
same_task_id t u = t.id == u.id

abbrev pub same_job_id : Job → Job → Bool
same_job_id j k = j.id == k.id

-- A row of jobs satisfies the CHECK constraints, and its identifier has been given out.
abbrev pub IsRow : RowId → Job → Type 0
IsRow next j =
    (j.id < next) × (status_allowed j.status ≡ true) × (job_type_allowed j.job_type ≡ true)

abbrev pub same_agent_id : Agent → Agent → Bool
same_agent_id a b = a.id == b.id

abbrev pub same_name : Agent → Agent → Bool
same_name a b = str_eq b.name a.name

-- Agents by the identifiers given out; their names are unique.
pub record IsAgentTable (next : RowId) (agents : List Agent) : Type 0 where
  pub given : All (λ a. a.id < next) agents
  pub ids_distinct : Distinct same_agent_id agents
  pub names_distinct : Distinct same_name agents

abbrev pub same_source_id : Source → Source → Bool
same_source_id s t = s.id == t.id

abbrev pub same_path : Source → Source → Bool
same_path s t = str_eq t.unc_path s.unc_path

-- Sources by the identifiers given out; their paths are unique.
pub record IsSourceTable (next : RowId) (sources : List Source) : Type 0 where
  pub given : All (λ s. s.id < next) sources
  pub ids_distinct : Distinct same_source_id sources
  pub paths_distinct : Distinct same_path sources

pub record IsValid (db : Db) : Type 0 where
  pub task_ids_given : All (λ t. t.id < db.next_id) db.tasks
  pub task_ids_distinct : Distinct same_task_id db.tasks
  pub slots_distinct : Distinct same_slot db.tasks
  pub jobs_rows : All (IsRow db.next_id) db.jobs
  pub job_ids_distinct : Distinct same_job_id db.jobs
  pub agent_table : IsAgentTable db.next_id db.agents
  pub source_table : IsSourceTable db.next_id db.sources
