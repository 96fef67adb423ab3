-- ===== src/Api/Valid.antt =====
-- The handlers of the API keep the tables valid, whichever calls of the store fail.
mod Rules
mod Agents
use encodeswarmr.Prelude.{ℤ, refl, List, [], ◌∷◌, ◌++◌, Option, some}
use encodeswarmr.Db.Types.{RowId, Job, JobStatus}
use encodeswarmr.Db.IsValid.{IsValid}
use encodeswarmr.Db.Jobs.{update_job_status}
use encodeswarmr.Db.Valid.{table_keeps, update_job_status-keeps}
use encodeswarmr.Exec.{Exec, Result, ok, err, Err}
use encodeswarmr.Exec.Keeps.{StmtKeeps, Keeps, keeps_rules, Keeps-pure, Keeps-bind}
use encodeswarmr.Api.Jobs.{
  Reply, CreateJobRequest, with_found, with_done, handle_create_job, cancel_found,
  handle_cancel_job, retry_found, handle_retry_job, handle_update_job_priority, after_reorder,
  reorder_from, handle_reorder_jobs, handle_preempt_task,
}
use encodeswarmr.Api.Valid.Rules.{api_keeps, with_found-Keeps, with_done-Keeps}
pub use encodeswarmr.Api.Valid.Agents.*
use encodeswarmr.Api.Chain.{ChainStep, create_steps, handle_create_job_chain}

after_reorder-Keeps :
    (r : Result (Unit {0})) (more : Exec Reply)
    → Keeps IsValid more
    → Keeps IsValid (after_reorder r more)
after_reorder-Keeps (ok _) more h = h
after_reorder-Keeps (err Err.not_found) more h = h
after_reorder-Keeps (err e) more h = Keeps-pure Reply.server_error

pub handle_create_job-Keeps : (req : CreateJobRequest) → Keeps IsValid (handle_create_job req)
unfolding handle_create_job
handle_create_job-Keeps req = search api_keeps depth 10

to_cancelled-keeps : (id : RowId) → StmtKeeps IsValid (update_job_status id JobStatus.cancelled)
to_cancelled-keeps id = update_job_status-keeps id JobStatus.cancelled refl

cancel_found-Keeps : (id : RowId) (job : Job) → Keeps IsValid (cancel_found id job)
unfolding cancel_found
cancel_found-Keeps id job = search (api_keeps, to_cancelled-keeps) depth 16

pub handle_cancel_job-Keeps : (id : RowId) → Keeps IsValid (handle_cancel_job id)
unfolding handle_cancel_job
handle_cancel_job-Keeps id = search (api_keeps, cancel_found-Keeps) depth 10

to_queued-keeps : (id : RowId) → StmtKeeps IsValid (update_job_status id JobStatus.queued)
to_queued-keeps id = update_job_status-keeps id JobStatus.queued refl

retry_found-Keeps : (id : RowId) (job : Job) → Keeps IsValid (retry_found id job)
unfolding retry_found
retry_found-Keeps id job = search (api_keeps, to_queued-keeps) depth 16

pub handle_retry_job-Keeps : (id : RowId) → Keeps IsValid (handle_retry_job id)
unfolding handle_retry_job
handle_retry_job-Keeps id = search (api_keeps, retry_found-Keeps) depth 10

pub handle_update_job_priority-Keeps :
    (id : RowId) (priority : ℤ) → Keeps IsValid (handle_update_job_priority id priority)
unfolding handle_update_job_priority
handle_update_job_priority-Keeps id priority = search api_keeps depth 16

reorder_from-Keeps : (ids : List RowId) → Keeps IsValid (reorder_from ids)
unfolding reorder_from
reorder_from-Keeps [] = Keeps-pure Reply.done
reorder_from-Keeps (id ∷ ids) =
    Keeps-bind _ _ (search api_keeps) λ r. after_reorder-Keeps r _ (reorder_from-Keeps ids)

pub handle_reorder_jobs-Keeps : (ids : List RowId) → Keeps IsValid (handle_reorder_jobs ids)
unfolding handle_reorder_jobs
handle_reorder_jobs-Keeps ids = search (api_keeps, reorder_from-Keeps) depth 6

pub handle_preempt_task-Keeps : (id : RowId) → Keeps IsValid (handle_preempt_task id)
unfolding handle_preempt_task
handle_preempt_task-Keeps id = search api_keeps depth 10

create_steps-Keeps :
    (source_id chain_group : RowId) (created : List Job) (prev : Option RowId)
    (steps : List ChainStep)
    → Keeps IsValid (create_steps source_id chain_group created prev steps)
unfolding create_steps
create_steps-Keeps source_id chain_group created prev [] = Keeps-pure _
create_steps-Keeps source_id chain_group created prev (step ∷ steps) =
    Keeps-bind _ _ (search api_keeps) λ r.
      with_done-Keeps r _
        λ j. create_steps-Keeps source_id chain_group (created ++ j ∷ []) (some j.id) steps

pub handle_create_job_chain-Keeps :
    (chain_group source_id : RowId) (steps : List ChainStep)
    → Keeps IsValid (handle_create_job_chain chain_group source_id steps)
unfolding handle_create_job_chain
handle_create_job_chain-Keeps chain_group source_id steps =
    search (api_keeps, create_steps-Keeps) depth 6
