-- ===== src/Api/Chain/Blocked.antt =====
-- Jobs that depend on an unfinished job are refused by the table's constraint on the status.
use encodeswarmr.Prelude.{Bool, none, ◌==◌, any_of}
use encodeswarmr.Db.Types.{RowId, Job, JobStatus}
use encodeswarmr.Db.IsValid.{IsValid}
use encodeswarmr.Db.Jobs.{new_job}
use encodeswarmr.Exec.{World}
use encodeswarmr.Api.Chain.{ChainStep, step_params}

-- The row of the first job of a chain.
abbrev pub first_job : RowId → RowId → ChainStep → World → Job
first_job chain_group source_id step w =
    new_job (step_params source_id chain_group none step) JobStatus.queued w.db.next_id w.now

abbrev pub has_source : RowId → World → Bool
has_source id w = any_of (λ s. s.id == id) w.db.sources
