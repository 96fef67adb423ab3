-- ===== src/Grpc/Result.antt =====
-- internal/controller/grpc/result.go: what the controller does with the result of a task. The body
-- of a goroutine is a handler of its own, run at some later time.
pub mod Retry
pub mod Announce
use encodeswarmr.Prelude.{
  ℕ, zero, suc, ◌+◌, ℤ, pos, negsuc, ltbℤ, String, Bool, true, false, not, ◌&&◌, ◌||◌, List, [],
  ◌∷◌, map, Option, none, some, ltb, leb, ◌==◌, if◌then◌else◌, select, find_first,
}
use encodeswarmr.Db.Types.{
  RowId, no_id, Task, TaskStatus, TaskType, Job, JobStatus, JobType, Metrics, is_status,
  is_task_type,
}
use encodeswarmr.Db.Tasks.{
  CompleteTaskParams, get_task_by_id, complete_task, fail_task, list_tasks_by_job,
  claim_concat_task, sort_by_chunk,
}
use encodeswarmr.Db.Retry.{retry_task_with_backoff_jitter}
use encodeswarmr.Db.Jobs.{
  get_job_by_id, update_job_task_counts, update_job_status, unblock_dependent_jobs,
}
use encodeswarmr.Engine.Errors.{classify_error, max_retries_for_category}
use encodeswarmr.Db.Sources.{get_source_by_id}
use encodeswarmr.Exec.{
  Exec, Stmt, Result, ok, err, Err, Event, Goroutine, pure, raise, call, catch, ignore, or_internal,
  emit, spawn, ◌>>=◌, ◌>>◌, continue,
}
use encodeswarmr.Grpc.Server.{Server, TaskResult, ResultMetrics}
use encodeswarmr.Grpc.Hdr.{extract_hdr_result}

-- Two reads whose outcome is dropped: the duration is always 0.
unfoldable pub task_source_duration_sec : RowId → Exec (Unit {0})
task_source_duration_sec job_id =
    ignore (do job ← call (get_job_by_id job_id); call (get_source_by_id job.source_id))

abbrev pub is_blank : String → Bool
is_blank String.[] = true
is_blank (String.◌∷◌ c s) = false

-- The advisory check of the output. ffprobe's verdict is only logged, so nothing depends on it.
unfoldable pub validate_output : Server → TaskResult → Exec (Unit {0})
validate_output s req =
    if s.validation_enabled
    then ignore (do
      task ← call (get_task_by_id req.task_id)
      if is_blank task.output_path then pure tt else task_source_duration_sec req.job_id)
    else pure tt

abbrev pub nonzero : ℕ → Option ℕ
nonzero zero = none
nonzero (suc n) = some (suc n)

abbrev pub complete_metrics : Option ResultMetrics → Metrics
complete_metrics none = record {
  frames_encoded = 0;
  avg_fps = 0;
  output_size = 0;
  duration_sec = 0;
  vmaf_score = none;
  psnr = none;
  ssim = none;
}
complete_metrics (some m) = record {
  frames_encoded = m.frames_encoded;
  avg_fps = m.avg_fps;
  output_size = m.output_size;
  duration_sec = m.duration_sec;
  vmaf_score = nonzero m.vmaf_score;
  psnr = nonzero m.psnr;
  ssim = nonzero m.ssim;
}

abbrev pub complete_params : TaskResult → CompleteTaskParams
complete_params req = record {
  id = req.task_id;
  exit_code = req.exit_code;
  metrics = complete_metrics req.metrics;
}

-- The statement on the table of encoding statistics, which has no part in the model.
unfoldable pub record_stats : Stmt (Unit {0})
record_stats now db = (ok tt, db)

unfoldable pub upsert_encoding_stats : TaskResult → Exec (Unit {0})
unfolding record_stats
upsert_encoding_stats req = ignore (do job ← call (get_job_by_id req.job_id); call record_stats)

abbrev pub exit_code_or_zero : Option ℤ → ℤ
exit_code_or_zero none = pos 0
exit_code_or_zero (some c) = c

abbrev pub text_or_empty : Option String → String
text_or_empty none = ""
text_or_empty (some msg) = msg

-- The number of retries that the failure of a task is worth.
unfoldable pub effective_max : Job → Task → ℤ
effective_max job task =
    max_retries_for_category
      (classify_error (exit_code_or_zero task.exit_code) (text_or_empty task.error_msg))
      job.max_retries

-- `jitter_sec` is what rand.Intn(16) returns.
unfoldable pub maybe_retry_task : ℕ → RowId → RowId → Exec (Unit {0})
unfolding effective_max
maybe_retry_task jitter_sec task_id job_id = do
  task ← call (get_task_by_id task_id)
  job ← call (get_job_by_id job_id)
  if not (ltbℤ (pos 0) job.max_retries)
      then pure tt
      else if not (ltbℤ (pos task.retry_count) (effective_max job task))
      then pure tt
      else (do call (retry_task_with_backoff_jitter task_id task.retry_count jitter_sec); pure tt)

unfoldable pub process_result : Server → ℕ → TaskResult → Exec (Unit {0})
process_result s jitter_sec req =
    if req.success
    then (do
      validate_output s req
      or_internal (call (complete_task (complete_params req)))
      if ltb 0 (complete_metrics req.metrics).avg_fps then upsert_encoding_stats req else pure tt)
    else (do
      or_internal (call (fail_task req.task_id req.exit_code req.error_msg))
      ignore (maybe_retry_task jitter_sec req.task_id req.job_id))

abbrev pub pending_of_type : TaskType → Task → Bool
pending_of_type ty t = is_task_type t.task_type ty && is_status t.status TaskStatus.pending

-- The output paths of the finished chunks, in the order of their chunks.
unfoldable pub chunk_paths : List Task → List String
chunk_paths tasks =
    map (λ t. t.output_path)
      (select
        (λ t.
          not (is_task_type t.task_type TaskType.concat) && is_status t.status TaskStatus.completed)
        (sort_by_chunk tasks))

-- The last part of checkJobCompletion: the job ends when it has no task pending or running.
abbrev pub final_status : Job → JobStatus
final_status job = if ltb 0 job.tasks_failed then JobStatus.failed else JobStatus.completed

abbrev pub is_hdr_detect : JobType → Bool
is_hdr_detect JobType.hdr_detect = true
is_hdr_detect _ = false

abbrev pub is_completed : JobStatus → Bool
is_completed JobStatus.completed = true
is_completed _ = false

unfoldable pub finish_job : Server → RowId → Job → Exec (Unit {0})
finish_job s job_id job =
    if ltb 0 job.tasks_pending || ltb 0 job.tasks_running then pure tt else (do
      or_internal (call (update_job_status job_id (final_status job)))
      if is_completed (final_status job)
          then ignore (call (unblock_dependent_jobs job_id))
          else pure tt
      if is_hdr_detect job.job_type && is_completed (final_status job)
          then ignore (extract_hdr_result s job)
          else pure tt
      emit (Event.job_event (final_status job) job_id job.tasks_completed job.tasks_failed))

-- A task that the controller runs itself: it is failed if others failed, and else claimed, and its
-- goroutine is started. `more` is the code behind the block, for the cases that fall through.
abbrev pub on_claim : Goroutine → Result (Unit {0}) → Exec (Unit {0})
on_claim g (ok _) = spawn g
on_claim g (err Err.not_found) = pure tt
on_claim g (err e) = raise Err.internal

unfoldable pub start_or_skip :
    RowId → Job → Task → String → Goroutine → Exec (Unit {0}) → Exec (Unit {0})
start_or_skip job_id job task reason g more =
    if ltb 0 job.tasks_failed
    then (do
      ignore (call (fail_task task.id (negsuc 0) reason))
      ignore (call (update_job_task_counts job_id))
      more)
    else (do claimed ← catch (call (claim_concat_task task.id)); on_claim g claimed)

abbrev pub with_pending :
    TaskType → List Task → (Task → Exec (Unit {0})) → Exec (Unit {0}) → Exec (Unit {0})
with_pending ty tasks start more = elim (find_first (pending_of_type ty) tasks) [
  | none ↦ more
  | some t ↦ start t
]

unfoldable pub check_vmaf : Server → RowId → Job → Exec (Unit {0}) → Exec (Unit {0})
unfolding start_or_skip
check_vmaf s job_id job more =
    if s.vmaf_runner && job.tasks_running == 0 && ltb 0 job.tasks_pending
    then (do
      tasks ← or_internal (call (list_tasks_by_job job_id))
      with_pending TaskType.vmaf_target tasks
          (λ t.
            start_or_skip job_id job t "skipped: predecessor tasks failed"
              (Goroutine.run_vmaf_target job_id t.id) more)
          more)
    else more

unfoldable pub check_concat : Server → RowId → Job → Exec (Unit {0}) → Exec (Unit {0})
unfolding start_or_skip chunk_paths
check_concat s job_id job more =
    if s.concat_runner && job.tasks_pending == 1 && job.tasks_running == 0
    then (do
      tasks ← or_internal (call (list_tasks_by_job job_id))
      with_pending TaskType.concat tasks
          (λ t.
            start_or_skip job_id job t "skipped: chunk tasks failed"
              (Goroutine.run_concat job_id t.id (chunk_paths tasks) t.output_path) more)
          more)
    else more

unfoldable pub check_job_completion : Server → RowId → Exec (Unit {0})
unfolding check_concat check_vmaf finish_job
check_job_completion s job_id = do
  job ← or_internal (call (get_job_by_id job_id))
  check_concat s job_id job (check_vmaf s job_id job (finish_job s job_id job))

-- The goroutine of a concat or a vmaf_target task, after its runner has returned; `none` is
-- success, and else the text of the error.
abbrev pub empty_metrics : Metrics
empty_metrics = complete_metrics none

unfoldable pub finish_goroutine : Server → RowId → RowId → Option String → Exec (Unit {0})
finish_goroutine s job_id task_id outcome = do
  ignore (elim outcome [
    | some msg ↦ call (fail_task task_id (pos 1) msg)
    | none ↦
        call (complete_task (record { id = task_id; exit_code = pos 0; metrics = empty_metrics }))
  ])
  ignore (call (update_job_task_counts job_id))
  ignore (check_job_completion s job_id)

unfoldable pub report_result : Server → ℕ → TaskResult → Exec (Unit {0})
unfolding process_result
report_result s jitter_sec req =
    if req.task_id == no_id || req.job_id == no_id then raise Err.invalid_argument else (do
      process_result s jitter_sec req
      or_internal (call (update_job_task_counts req.job_id))
      check_job_completion s req.job_id)
