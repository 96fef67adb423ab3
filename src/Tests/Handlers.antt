-- ===== src/Tests/Handlers.antt =====
-- The theorems on the controller's handlers, at concrete inputs.
use encodeswarmr.Prelude.{
  some, count_if, ◌==◌, ◌&&◌, ◌≡◌, refl, ◌⊎◌, pos, true, false, [], ◌∷◌, none, arith, any_of,
  find_first, update_where,
}
use encodeswarmr.Db.Types.{Job, TaskStatus, JobStatus, JobType, is_job_status}
use encodeswarmr.Db.Tasks.{
  is_open, insert_task, insert_row, new_task, create_task, set_task_script_dir, update_or_missing,
}
use encodeswarmr.Db.Jobs.Status.{count_other}
use encodeswarmr.Db.Jobs.{
  count_status, get_job_by_id, update_job_status, CreateJobParams, create_job, new_job,
  initial_status, get_job_status, insert_job,
}
use encodeswarmr.Db.Jobs.Create.{Creates, create_job-Creates}
use encodeswarmr.Exec.{
  World, answering, ok, Err, Event, call, catch, pure, emit, or_internal, or_fail, outside, ◌>>=◌,
}
use encodeswarmr.Engine.Float.{whole}
use encodeswarmr.Engine.Expand.{create_with_scripts}
use encodeswarmr.Engine.Expand.Encode.{create_chunks}
use encodeswarmr.Engine.Expand.Clean.{IsUndone, create_chunks-IsUndone}
use encodeswarmr.Grpc.Result.{check_job_completion, maybe_retry_task}
use encodeswarmr.Grpc.Result.Announce.{IsFinal, check_job_completion-Announces}
use encodeswarmr.Grpc.Result.Retry.{Retries, maybe_retry_task-Retries}
use encodeswarmr.Api.Jobs.{Reply, handle_cancel_job, handle_retry_job}
use encodeswarmr.Api.Jobs.Cancel.{handle_cancel_job-closes, handle_retry_job-retries}
use encodeswarmr.Api.Chain.{ChainStep, step_params}
use encodeswarmr.Tests.Data.{
  world, tables, world, server, engine, running_job, failed_job, failed_task, source, two_chunks,
}

-- A job whose tasks have all come to an end, two of them as failed.
abbrev ended_job : Job
ended_job = record failed_job {
  status = JobStatus.running;
  tasks_total = 5;
  tasks_pending = 0;
  tasks_running = 0;
  tasks_completed = 3;
  tasks_failed = 2;
}

abbrev ended : World
ended = record world { db = record tables { jobs = ended_job ∷ [] } }

check_job_completion-Announces_example :
    let events = (check_job_completion server 6 ended).1.events in
    (events ≡ ended.events) ⊎ ((e : Event) × (events ≡ e ∷ ended.events) × IsFinal 6 ended_job e)
unfolding find_first
check_job_completion-Announces_example =
    check_job_completion-Announces server 6 ended ended_job refl

-- It is the branch with an event.
ended_run :
    (check_job_completion server 6 ended).1.events
    ≡ Event.job_event JobStatus.failed 6 3 2 ∷ ended.events
unfolding check_job_completion ◌>>=◌ or_internal call get_job_by_id find_first update_job_status
    any_of pure emit
ended_run = refl

maybe_retry_task-Retries_example :
    Retries failed_task running_job world.db (maybe_retry_task 7 3 1 (answering world)).1.db
unfolding find_first
maybe_retry_task-Retries_example =
    maybe_retry_task-Retries 7 3 1 world failed_task running_job refl refl

-- A job with no tasks, whose second chunk's scripts cannot be written.
create_chunks-IsUndone_example :
    IsUndone 6 (create_chunks whole engine failed_job source 0 two_chunks (answering world)).1.db
unfolding create_chunks create_with_scripts or_fail outside call pure ◌>>=◌ create_task new_task
    insert_task insert_row set_task_script_dir update_or_missing any_of update_where
create_chunks-IsUndone_example =
    create_chunks-IsUndone whole engine failed_job source 0 two_chunks world Err.internal refl

handle_cancel_job-closes_example :
    let r = handle_cancel_job 1 (answering world) in
    (r.0 ≡ ok Reply.done)
    × (count_other 1 JobStatus.cancelled r.1.db.jobs ≡ 0)
    × (count_if (λ t. t.job_id == 1 && is_open t) r.1.db.tasks ≡ 0)
unfolding find_first
handle_cancel_job-closes_example =
    handle_cancel_job-closes 1 world running_job (omega arith) refl refl

handle_retry_job-retries_example :
    let r = handle_retry_job 6 (answering world) in
    ((r.0 ≡ ok Reply.unprocessable)
      × (r.1.db ≡ world.db)
      × (is_job_status failed_job.status JobStatus.failed ≡ false))
    ⊎ ((r.0 ≡ ok Reply.done)
        × (is_job_status failed_job.status JobStatus.failed ≡ true)
        × (count_other 6 JobStatus.queued r.1.db.jobs ≡ 0)
        × (count_status 6 TaskStatus.failed r.1.db.tasks ≡ 0))
unfolding find_first
handle_retry_job-retries_example = handle_retry_job-retries 6 world failed_job (omega arith) refl

abbrev analysis_step : ChainStep
analysis_step = record {
  job_type = JobType.analysis;
  priority = pos 0;
  target_tags = [];
  encode_config = none;
  audio_codec = none;
}

abbrev encode_step : ChainStep
encode_step = record analysis_step { job_type = JobType.encode }

-- A job that depends on the running job 1, with a lookup that fails.
abbrev dependent : CreateJobParams
dependent = step_params 9 77 (some 1) encode_step

abbrev lookup_fails : World
lookup_fails = record world { faults = true ∷ [] }

create_job-Creates_example :
    let r = create_job dependent lookup_fails in Creates dependent lookup_fails r.0 r.1.db
create_job-Creates_example = create_job-Creates dependent lookup_fails

-- It is made, and queued at once.
dependent_run :
    (create_job dependent lookup_fails).0 ≡ ok (new_job dependent JobStatus.queued 10 1000)
unfolding create_job initial_status get_job_status insert_job call catch pure ◌>>=◌ any_of
dependent_run = refl
