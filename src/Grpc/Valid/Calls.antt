-- ===== src/Grpc/Valid/Calls.antt =====
-- Polls, progress reports and replays keep the tables valid, whichever calls of the store fail.
use encodeswarmr.Prelude.{ℕ, suc, refl, List, [], ◌∷◌, ◌++◌, Option, none, some, String}
use encodeswarmr.Db.Types.{RowId, Task, Job, JobStatus}
use encodeswarmr.Db.IsValid.{IsValid}
use encodeswarmr.Db.Valid.{table_keeps, update_job_status-keeps}
use encodeswarmr.Exec.{Result, ok, err}
use encodeswarmr.Exec.Keeps.{Keeps, keeps_rules, Keeps-pure, Keeps-bind, Keeps-if}
use encodeswarmr.Grpc.Server.{Server, TaskResult}
use encodeswarmr.Grpc.Poll.{start_assigned_job, assign, poll_task, report_progress}
use encodeswarmr.Grpc.Sync.{accept_result, sync_loop, sync_offline_results}
use encodeswarmr.Grpc.Valid.{process_result-Keeps, check_job_completion-Keeps}

ruleset store_keeps = (keeps_rules, table_keeps)

start_assigned_job-Keeps : (r : Result Job) → Keeps IsValid (start_assigned_job r)
unfolding start_assigned_job
start_assigned_job-Keeps (ok job) =
    search (store_keeps, update_job_status-keeps job.id JobStatus.running refl) depth 8
start_assigned_job-Keeps (err e) = Keeps-pure tt

assign-Keeps : (o : Option Task) → Keeps IsValid (assign o)
assign-Keeps none = record { at = λ w v. v }
assign-Keeps (some t) = search (store_keeps, start_assigned_job-Keeps) depth 12

pub poll_task-Keeps : (id : RowId) (tags : List String) → Keeps IsValid (poll_task id tags)
unfolding poll_task
poll_task-Keeps id tags = search (store_keeps, assign-Keeps) depth 8

pub report_progress-Keeps : (seen ids : List RowId) → Keeps IsValid (report_progress seen ids)
unfolding report_progress
report_progress-Keeps seen [] = Keeps-pure tt
report_progress-Keeps seen (id ∷ ids) =
    Keeps-if _ _ _ (report_progress-Keeps seen ids)
      (Keeps-bind _ _ (search store_keeps) λ _. report_progress-Keeps (id ∷ seen) ids)

accept_result-Keeps :
    (s : Server) (jitter : ℕ) (r : TaskResult) → Keeps IsValid (accept_result s jitter r)
unfolding accept_result
accept_result-Keeps s jitter r =
    search (store_keeps, process_result-Keeps, check_job_completion-Keeps) depth 12

sync_loop-Keeps :
    (s : Server) (jitter : TaskResult → ℕ) (n : ℕ) (ids : List RowId) (rs : List TaskResult)
    → Keeps IsValid (sync_loop s jitter n ids rs)
unfolding sync_loop
sync_loop-Keeps s jitter n ids [] = Keeps-pure _
sync_loop-Keeps s jitter n ids (r ∷ rs) = Keeps-bind _ _ (search store_keeps) λ t.
    Keeps-if _ _ _ (sync_loop-Keeps s jitter n (ids ++ r.task_id ∷ []) rs) (
      Keeps-bind _ _ (accept_result-Keeps s (jitter r) r)
        λ _. sync_loop-Keeps s jitter (suc n) ids rs)

pub sync_offline_results-Keeps :
    (s : Server) (jitter : TaskResult → ℕ) (rs : List TaskResult)
    → Keeps IsValid (sync_offline_results s jitter rs)
unfolding sync_offline_results
sync_offline_results-Keeps s jitter rs = sync_loop-Keeps s jitter 0 [] rs
