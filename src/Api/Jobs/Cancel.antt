-- ===== src/Api/Jobs/Cancel.antt =====
-- What handleCancelJob and handleRetryJob do, when the store answers.
use encodeswarmr.Prelude.{
  count_if, count_if-cleared, ◌≡◌, refl, ◌≢◌, ◌⊎◌, inl, inr, true, false, ◌&&◌, List, some, arith,
  ◌==◌, Bool-cases, find_first, update_where, find_first-any_of,
}
use encodeswarmr.Db.Types.{RowId, no_id, Task, TaskStatus, Job, JobStatus, is_status, is_job_status}
use encodeswarmr.Db.Tasks.{
  of_job, is_open, cancel_pending_tasks_for_job, update_all, retry_failed_tasks_for_job, to_retried,
}
use encodeswarmr.Db.Jobs.Status.{count_other, count_other-cleared}
use encodeswarmr.Db.Jobs.{
  count_status, has_job_id, get_job_by_id, update_job_status, update_job_or_missing,
}
use encodeswarmr.Exec.{World, answering, ok, pure, call, catch, emit, ◌>>=◌}
use encodeswarmr.Api.Jobs.{
  Reply, cannot_cancel, cancel_found, handle_cancel_job, retry_found, handle_retry_job,
}

not_blank : (id : RowId) → id ≢ no_id → (id == no_id) ≡ false
not_blank id h = ground arith

tasks_closed :
    (id : RowId) (ts : List Task)
    → count_if
        (λ t. t.job_id == id && is_open t)
        (update_where
          (λ t. t.job_id == id && is_open t)
          (λ t. record t { status = TaskStatus.cancelled })
          ts)
      ≡ 0
tasks_closed id ts =
    count_if-cleared (λ t. t.job_id == id && is_open t) (λ t. t.job_id == id && is_open t) _ ts
      (λ t _. ground arith) λ t e. e

-- A job that exists and is neither cancelled nor completed can be cancelled, with a store that
-- answers and an id that is not blank: the answer is success, the job's rows are cancelled, and
-- none of its tasks is left pending or assigned.
pub handle_cancel_job-closes :
    (id : RowId) (w : World) (job : Job)
    → id ≢ no_id
    → find_first (has_job_id id) w.db.jobs ≡ some job
    → cannot_cancel job ≡ false
    → let r = handle_cancel_job id (answering w) in
      (r.0 ≡ ok Reply.done)
      × (count_other id JobStatus.cancelled r.1.db.jobs ≡ 0)
      × (count_if (λ t. t.job_id == id && is_open t) r.1.db.tasks ≡ 0)
unfolding handle_cancel_job cancel_found ◌>>=◌ call catch pure emit get_job_by_id update_job_status
    update_job_or_missing cancel_pending_tasks_for_job update_all
handle_cancel_job-closes id w job h f c =
    rw (not_blank id h, f, c, find_first-any_of (has_job_id id) w.db.jobs f)
      (refl, count_other-cleared id JobStatus.cancelled w.now w.db.jobs, tasks_closed id w.db.tasks)

tasks_retried :
    (id : RowId) (ts : List Task)
    → count_status id TaskStatus.failed
        (update_where (λ t. t.job_id == id && is_status t.status TaskStatus.failed) to_retried ts)
      ≡ 0
unfolding count_status
tasks_retried id ts =
    count_if-cleared (λ t. t.job_id == id && is_status t.status TaskStatus.failed)
      (λ t. of_job id t && is_status t.status TaskStatus.failed) to_retried ts (λ t _. ground arith)
      λ t e. e

-- With a store that answers, a job that exists and an id that is not blank, a retry is refused
-- unless the job has failed, and then nothing changes; after a retry of a failed job, its rows are
-- queued and none of its tasks is failed.
pub handle_retry_job-retries :
    (id : RowId) (w : World) (job : Job)
    → id ≢ no_id
    → find_first (has_job_id id) w.db.jobs ≡ some job
    → let r = handle_retry_job id (answering w) in
      ((r.0 ≡ ok Reply.unprocessable)
        × (r.1.db ≡ w.db)
        × (is_job_status job.status JobStatus.failed ≡ false))
      ⊎ ((r.0 ≡ ok Reply.done)
          × (is_job_status job.status JobStatus.failed ≡ true)
          × (count_other id JobStatus.queued r.1.db.jobs ≡ 0)
          × (count_status id TaskStatus.failed r.1.db.tasks ≡ 0))
unfolding handle_retry_job retry_found ◌>>=◌ call catch pure get_job_by_id update_job_status
    update_job_or_missing retry_failed_tasks_for_job update_all
handle_retry_job-retries id w job h f =
    elim (Bool-cases (is_job_status job.status JobStatus.failed)) [
      | inr e ↦ rw (not_blank id h, f, e) (inl (refl, refl, refl))
      | inl e ↦
          rw (not_blank id h, f, e, find_first-any_of (has_job_id id) w.db.jobs f)
            (inr (
              refl,
              refl,
              count_other-cleared id JobStatus.queued w.now w.db.jobs,
              tasks_retried id w.db.tasks,
            ))
    ]
