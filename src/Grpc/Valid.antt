-- ===== src/Grpc/Valid.antt =====
-- The handling of results keeps the tables valid, whichever calls of the store fail.
pub mod Calls
pub mod Agents
use encodeswarmr.Prelude.{
  ℕ, zero, suc, ◌≡◌, refl, inl, inr, true, List, [], ◌∷◌, ◌++◌, Option, none, some, String, ℤ, ltb,
  ◌==◌, Bool-cases, any_of, find_first, length, arith,
}
use encodeswarmr.Db.Types.{RowId, Task, TaskType, TaskLog, Job, JobStatus}
use encodeswarmr.Db.IsValid.{IsValid}
use encodeswarmr.Db.Valid.{table_keeps, update_source_hdr-keeps, update_job_status-keeps}
use encodeswarmr.Db.Jobs.{status_allowed, update_job_status}
use encodeswarmr.Exec.{Exec, Result, ok, err, Err, Goroutine}
use encodeswarmr.Exec.Keeps.{
  StmtKeeps, Keeps, keeps_rules, Keeps-pure, Keeps-raise, Keeps-call, Keeps-bind, Keeps-if,
  Keeps-option, Keeps-spawn,
}
use encodeswarmr.Grpc.Server.{Server, TaskResult}
use encodeswarmr.Grpc.Hdr.{
  list_task_logs, is_sentinel, store_hdr, on_page, scan_pages, extract_from, extract_hdr_result,
  last_id, page_size,
}
use encodeswarmr.Grpc.Result.{
  task_source_duration_sec, validate_output, record_stats, upsert_encoding_stats, maybe_retry_task,
  process_result, final_status, finish_job, on_claim, start_or_skip, with_pending, check_vmaf,
  check_concat, check_job_completion, finish_goroutine, report_result, pending_of_type,
}
use encodeswarmr.Grpc.Poll.{start_assigned_job, assign, poll_task, report_progress}
use encodeswarmr.Grpc.Sync.{accept_result, sync_loop, sync_offline_results}

ruleset store_keeps = (keeps_rules, table_keeps)

record_stats-keeps : StmtKeeps IsValid record_stats
unfolding record_stats
record_stats-keeps = record { at = λ now db v. v }

validate_output-Keeps : (s : Server) (r : TaskResult) → Keeps IsValid (validate_output s r)
unfolding validate_output task_source_duration_sec
validate_output-Keeps s r = search store_keeps depth 12

upsert_encoding_stats-Keeps : (r : TaskResult) → Keeps IsValid (upsert_encoding_stats r)
unfolding upsert_encoding_stats
upsert_encoding_stats-Keeps r = search (store_keeps, record_stats-keeps) depth 12

maybe_retry_task-Keeps :
    (jitter : ℕ) (task_id job_id : RowId) → Keeps IsValid (maybe_retry_task jitter task_id job_id)
unfolding maybe_retry_task
maybe_retry_task-Keeps jitter task_id job_id = search store_keeps depth 14

pub process_result-Keeps :
    (s : Server) (jitter : ℕ) (r : TaskResult) → Keeps IsValid (process_result s jitter r)
unfolding process_result
process_result-Keeps s jitter r =
    search (store_keeps, validate_output-Keeps, upsert_encoding_stats-Keeps, maybe_retry_task-Keeps)
      depth 12

list_task_logs-keeps :
    (id : RowId) (stream : String) (c n : ℕ) → StmtKeeps IsValid (list_task_logs id stream c n)
unfolding list_task_logs
list_task_logs-keeps id stream c n = record { at = λ now db v. v }

store_hdr-Keeps : (id : RowId) (o : Option (String × ℤ)) → Keeps IsValid (store_hdr id o)
store_hdr-Keeps id none = Keeps-pure tt
store_hdr-Keeps id (some (h, p)) = Keeps-call _ (update_source_hdr-keeps id h p)

on_page-Keeps :
    (s : Server) (job : Job) (logs : List TaskLog) (more : Exec (Unit {0}))
    → Keeps IsValid more
    → Keeps IsValid (on_page s job logs more)
on_page-Keeps s job logs more k =
    Keeps-option (find_first is_sentinel logs) _ _ (λ l. store_hdr-Keeps job.source_id _)
      (Keeps-if (ltb (length logs) page_size) _ _ (Keeps-pure tt) k)

scan_pages-Keeps :
    (s : Server) (job : Job) (id : RowId) (fuel cursor : ℕ)
    → Keeps IsValid (scan_pages s job id fuel cursor)
unfolding scan_pages
scan_pages-Keeps s job id zero cursor = Keeps-pure tt
scan_pages-Keeps s job id (suc fuel) cursor =
    Keeps-bind _ _ (Keeps-call _ (list_task_logs-keeps id "stdout" cursor page_size))
      λ logs. on_page-Keeps s job logs _ (scan_pages-Keeps s job id fuel (last_id cursor logs))

extract_from-Keeps :
    (s : Server) (job : Job) (ts : List Task) → Keeps IsValid (extract_from s job ts)
extract_from-Keeps s job [] = record { at = λ w v. v }
extract_from-Keeps s job (t ∷ ts) = record {
  at = λ w v. (scan_pages-Keeps s job t.id (suc (length w.db.logs)) 0).at w v;
}

extract_hdr_result-Keeps : (s : Server) (job : Job) → Keeps IsValid (extract_hdr_result s job)
unfolding extract_hdr_result
extract_hdr_result-Keeps s job = search (store_keeps, extract_from-Keeps) depth 8

-- A job ends as completed or failed, which the column admits.
final_status-allowed : (job : Job) → status_allowed (final_status job) ≡ true
final_status-allowed job = ground arith

set_final-keeps :
    (id : RowId) (job : Job) → StmtKeeps IsValid (update_job_status id (final_status job))
set_final-keeps id job = update_job_status-keeps id (final_status job) (final_status-allowed job)

finish_job-Keeps : (s : Server) (id : RowId) (job : Job) → Keeps IsValid (finish_job s id job)
unfolding finish_job
finish_job-Keeps s id job = search (store_keeps, set_final-keeps, extract_hdr_result-Keeps) depth 16

on_claim-Keeps : (g : Goroutine) (r : Result (Unit {0})) → Keeps IsValid (on_claim g r)
on_claim-Keeps g (ok _) = Keeps-spawn g
on_claim-Keeps g (err Err.not_found) = Keeps-pure tt
on_claim-Keeps g (err e) = Keeps-raise Err.internal

start_or_skip-Keeps :
    (id : RowId) (job : Job) (t : Task) (reason : String) (g : Goroutine) (more : Exec (Unit {0}))
    → Keeps IsValid more
    → Keeps IsValid (start_or_skip id job t reason g more)
unfolding start_or_skip
start_or_skip-Keeps id job t reason g more k =
    Keeps-if _ _ _
      (Keeps-bind _ _ (search store_keeps) λ _. Keeps-bind _ _ (search store_keeps) λ _. k)
      (Keeps-bind _ _ (search store_keeps) (on_claim-Keeps g))

with_pending-Keeps :
    (ty : TaskType) (ts : List Task) (start : Task → Exec (Unit {0})) (more : Exec (Unit {0}))
    → ((t : Task) → Keeps IsValid (start t))
    → Keeps IsValid more
    → Keeps IsValid (with_pending ty ts start more)
with_pending-Keeps ty ts start more ks k =
    Keeps-option (find_first (pending_of_type ty) ts) start more ks k

check_vmaf-Keeps :
    (s : Server) (id : RowId) (job : Job) (more : Exec (Unit {0}))
    → Keeps IsValid more
    → Keeps IsValid (check_vmaf s id job more)
unfolding check_vmaf
check_vmaf-Keeps s id job more k =
    Keeps-if _ _ _
      (Keeps-bind _ _ (search store_keeps) λ ts.
        with_pending-Keeps TaskType.vmaf_target ts _ more
          (λ t. start_or_skip-Keeps id job t _ _ more k) k)
      k

check_concat-Keeps :
    (s : Server) (id : RowId) (job : Job) (more : Exec (Unit {0}))
    → Keeps IsValid more
    → Keeps IsValid (check_concat s id job more)
unfolding check_concat
check_concat-Keeps s id job more k =
    Keeps-if _ _ _
      (Keeps-bind _ _ (search store_keeps) λ ts.
        with_pending-Keeps TaskType.concat ts _ more (λ t. start_or_skip-Keeps id job t _ _ more k)
          k)
      k

pub check_job_completion-Keeps :
    (s : Server) (id : RowId) → Keeps IsValid (check_job_completion s id)
unfolding check_job_completion
check_job_completion-Keeps s id =
    Keeps-bind _ _ (search store_keeps)
      λ job. check_concat-Keeps s id job _ (check_vmaf-Keeps s id job _ (finish_job-Keeps s id job))

pub finish_goroutine-Keeps :
    (s : Server) (job_id task_id : RowId) (o : Option String)
    → Keeps IsValid (finish_goroutine s job_id task_id o)
unfolding finish_goroutine
finish_goroutine-Keeps s job_id task_id none =
    search (store_keeps, check_job_completion-Keeps) depth 12
finish_goroutine-Keeps s job_id task_id (some msg) =
    search (store_keeps, check_job_completion-Keeps) depth 12

pub report_result-Keeps :
    (s : Server) (jitter : ℕ) (r : TaskResult) → Keeps IsValid (report_result s jitter r)
unfolding report_result
report_result-Keeps s jitter r =
    search (store_keeps, process_result-Keeps, check_job_completion-Keeps) depth 12
