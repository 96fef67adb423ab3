-- ===== src/Grpc/Poll.antt =====
-- internal/controller/grpc/poll.go and progress.go: an agent asks for a task, and reports progress.
-- The script files that PollTask reads from disk are not modelled.
use encodeswarmr.Prelude.{
  ℕ, ℤ, pos, String, List, [], ◌∷◌, Option, none, some, ◌==◌, if◌then◌else◌, any_of,
}
use encodeswarmr.Db.Types.{RowId, no_id, Task, TaskStatus, Job, JobStatus, Variables, is_job_status}
use encodeswarmr.Db.Tasks.{update_task_status}
use encodeswarmr.Db.Claim.{claim_next_task}
use encodeswarmr.Db.Jobs.{get_job_by_id, update_job_task_counts, update_job_status}
use encodeswarmr.Exec.{
  Exec, Result, ok, err, Err, pure, raise, call, catch, ignore, or_internal, ◌>>=◌, ◌>>◌,
}

pub record TaskAssignment : Type 0 where
  pub task_id : RowId
  pub job_id : RowId
  pub chunk_index : ℕ
  pub variables : Variables
  pub source_path : String
  pub output_path : String
  pub priority : ℤ

abbrev pub job_priority : Result Job → ℤ
job_priority (ok job) = job.priority
job_priority (err e) = pos 0

abbrev pub assignment : Task → Result Job → TaskAssignment
assignment t job = record {
  task_id = t.id;
  job_id = t.job_id;
  chunk_index = t.chunk_index;
  variables = t.variables;
  source_path = t.source_path;
  output_path = t.output_path;
  priority = job_priority job;
}

-- A job that is still "assigned" starts to run.
unfoldable pub start_assigned_job : Result Job → Exec (Unit {0})
start_assigned_job (ok job) =
    if is_job_status job.status JobStatus.assigned
    then ignore (call (update_job_status job.id JobStatus.running))
    else pure tt
start_assigned_job (err e) = pure tt

abbrev pub assign : Option Task → Exec (Option TaskAssignment)
assign none w = (ok none, w)
assign (some t) w =
    (do
      ignore (call (update_job_task_counts t.job_id))
      job ← catch (call (get_job_by_id t.job_id))
      start_assigned_job job
      pure (some (assignment t job)))
      w

unfoldable pub poll_task : RowId → List String → Exec (Option TaskAssignment)
unfolding start_assigned_job
poll_task agent_id tags =
    if agent_id == no_id
    then raise Err.invalid_argument
    else (do task ← call (claim_next_task agent_id tags); assign task)

-- ReportProgress: the stream as the list of the tasks that its messages are about, and the tasks
-- seen before. The first message about a task marks it as running.
unfoldable pub report_progress : List RowId → List RowId → Exec (Unit {0})
report_progress seen [] = pure tt
report_progress seen (id ∷ rest) =
    let again = report_progress seen rest in
    let first = (do
      or_internal (call (update_task_status id TaskStatus.running))
      report_progress (id ∷ seen) rest) in
    if any_of (λ s. s == id) seen then again else first
