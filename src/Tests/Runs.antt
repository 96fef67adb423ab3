-- ===== src/Tests/Runs.antt =====
-- Runs of the code.
use encodeswarmr.Prelude.{
  ◌≡◌, refl, pos, negsuc, [], ◌∷◌, map, find_first, any_of, update_where, count_if, select,
}
use encodeswarmr.Db.Types.{TaskStatus, JobStatus}
use encodeswarmr.Db.Tasks.{list_tasks_by_job, sort_by_chunk, insert_by_chunk, fail_task, update_all}
use encodeswarmr.Db.Jobs.{update_job_task_counts, count_status, get_job_by_id}
use encodeswarmr.Db.Retry.{backoff_seconds}
use encodeswarmr.Exec.{World, call, or_internal, ignore, pure, ◌>>=◌}
use encodeswarmr.Grpc.Result.{
  check_job_completion, check_concat, check_vmaf, start_or_skip, finish_job,
}
use encodeswarmr.Tests.Data.{tables, world, server, running_job, failed_task, concat_task}

first_backoff : backoff_seconds 0 ≡ pos 30
unfolding backoff_seconds
first_backoff = refl

-- The shift has overflowed into the sign bit.
negative_backoff : backoff_seconds 59 ≡ negsuc 1152921504606846975
unfolding backoff_seconds
negative_backoff = refl

-- A job whose one chunk has failed, and whose concatenation is still pending.
abbrev failed_chunk : World
failed_chunk = record world {
  db = record tables {
    jobs = record running_job { tasks_total = 2; tasks_pending = 1 } ∷ [];
    tasks = failed_task ∷ concat_task ∷ [];
  };
}

abbrev checked : World
checked = (check_job_completion server 1 failed_chunk).1

-- The concatenation is skipped, and all the tasks have failed, but the job is still running and
-- nothing is announced: the counters were read before the skip.
stuck_job :
    (map (λ t. t.status) checked.db.tasks ≡ TaskStatus.failed ∷ TaskStatus.failed ∷ [])
    × (map (λ j. j.status) checked.db.jobs ≡ JobStatus.running ∷ [])
    × (checked.events ≡ [])
unfolding check_job_completion get_job_by_id find_first call or_internal ignore pure ◌>>=◌
    check_concat check_vmaf start_or_skip finish_job list_tasks_by_job sort_by_chunk insert_by_chunk
    select fail_task update_all any_of update_where update_job_task_counts count_status count_if
stuck_job = (refl, refl, refl)
