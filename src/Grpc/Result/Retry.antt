-- ===== src/Grpc/Result/Retry.antt =====
-- What maybeRetryTask does, when the store answers.
use encodeswarmr.Prelude.{
  ℕ, suc, ◌≡◌, refl, ◌⊎◌, inl, inr, ◌≢◌, pos, ltbℤ, ◌≤ℤ◌, [], ◌∷◌, ◌++◌, some, arith, Bool-cases,
  find_first,
}
use encodeswarmr.Db.Types.{RowId, Task, Job, Db}
use encodeswarmr.Db.Tasks.{has_id, get_task_by_id}
use encodeswarmr.Db.Jobs.{has_job_id, get_job_by_id}
use encodeswarmr.Db.Retry.{retry_row}
use encodeswarmr.Db.Retry.Successor.{retry_task_with_backoff_jitter-inserts}
use encodeswarmr.Engine.Errors.{ErrorCategory, classify_error}
use encodeswarmr.Engine.Errors.Budget.{max_retries_for_category-budget}
use encodeswarmr.Exec.{World, answering, pure, call, ◌>>=◌}
use encodeswarmr.Grpc.Result.{effective_max, maybe_retry_task, exit_code_or_zero, text_or_empty}

-- The category of the failure that a task's row records.
abbrev category : Task → ErrorCategory
category t = classify_error (exit_code_or_zero t.exit_code) (text_or_empty t.error_msg)

-- The tables are unchanged, or one task is added: of the same job, counting one more retry, which
-- the job's limit admits; and then the failure is not a permanent one.
abbrev pub Retries : Task → Job → Db → Db → Type 0
Retries task job db db' =
    (db' ≡ db)
    ⊎ ((row : Task) × (db'.tasks ≡ db.tasks ++ row ∷ [])
        × (row.job_id ≡ task.job_id)
        × (row.retry_count ≡ suc task.retry_count)
        × (pos row.retry_count ≤ℤ job.max_retries)
        × (category task ≢ ErrorCategory.permanent))

-- One call of maybeRetryTask for a task and a job that exist, with a store that answers, leaves the
-- tables as they were or adds one task: of the same job as the failed one, counting one retry more,
-- which is within the retries of the job, and not after a permanent failure.
pub maybe_retry_task-Retries :
    (jitter : ℕ) (task_id job_id : RowId) (w : World) (task : Task) (job : Job)
    → find_first (has_id task_id) w.db.tasks ≡ some task
    → find_first (has_job_id job_id) w.db.jobs ≡ some job
    → Retries task job w.db (maybe_retry_task jitter task_id job_id (answering w)).1.db
unfolding maybe_retry_task ◌>>=◌ call get_task_by_id get_job_by_id effective_max pure retry_row
maybe_retry_task-Retries jitter task_id job_id w task job t j =
    elim (Bool-cases (ltbℤ (pos 0) job.max_retries)) [
      | inr e ↦ rw (t, j, e) (inl refl)
      | inl e ↦ elim (Bool-cases (ltbℤ (pos task.retry_count) (effective_max job task))) [
        | inr g ↦ rw (t, j, e, g) (inl refl)
        | inl g ↦
            let (b, p) =
              max_retries_for_category-budget (category task) job.max_retries task.retry_count g in
            rw
              (
                t,
                j,
                e,
                g,
                retry_task_with_backoff_jitter-inserts task_id task.retry_count jitter w.now w.db
                    task t,
              )
              (inr (_, refl, refl, omega arith, omega (arith, b), p))
      ]
    ]
