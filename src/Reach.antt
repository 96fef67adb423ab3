-- ===== src/Reach.antt =====
-- The controller as a transition system: a step is a handler run by an agent, by the API, by one of
-- the background loops, the end of one of its goroutines, or the passing of time, in which the
-- store may begin or cease to fail. The steps follow one another in any order.
pub mod Valid
use encodeswarmr.Prelude.{ℕ, ℤ, String, Bool, List, Option}
use encodeswarmr.Db.Types.{RowId, Job, JobType}
use encodeswarmr.Exec.{World}
use encodeswarmr.Engine.Float.{Float}
use encodeswarmr.Engine.Expand.{
  finish_analysis, Engine, expand_single_task_job, expand_merge_job, expand_hdr_detect_job,
  expand_controller_analysis_job,
}
use encodeswarmr.Engine.Expand.Encode.{expand_encode_job}
use encodeswarmr.Grpc.Server.{Server, TaskResult}
use encodeswarmr.Grpc.Result.{finish_goroutine, report_result}
use encodeswarmr.Grpc.Poll.{poll_task, report_progress}
use encodeswarmr.Grpc.Sync.{sync_offline_results}
use encodeswarmr.Api.Jobs.{
  CreateJobRequest, handle_create_job, handle_cancel_job, handle_retry_job,
  handle_update_job_priority, handle_reorder_jobs, handle_preempt_task,
}
use encodeswarmr.Api.Agents.{
  handle_drain_agent, handle_approve_agent, handle_request_agent_upgrade,
  handle_update_agent_channel,
}
use encodeswarmr.Api.Sources.{
  CreateSourceRequest, handle_create_source, handle_analyze_source, handle_hdr_detect_source,
  handle_encode_source, handle_update_source_hdr,
}
use encodeswarmr.Grpc.Register.{AgentInfo, register}
use encodeswarmr.Grpc.Heartbeat.{AgentState, heartbeat}
use encodeswarmr.Engine.Stale.{check_stale_agents}
use encodeswarmr.Engine.Condition.{Reals}
use encodeswarmr.Engine.FlowJob.{Flows}
use encodeswarmr.Engine.Dispatch.{expand_pending_jobs}
use encodeswarmr.Watcher.{Files, WatchFolder, scan}
use encodeswarmr.Scheduler.{Cron, tick}
use encodeswarmr.Api.Chain.{ChainStep, handle_create_job_chain}

pub data Step (fl : Float) (e : Engine fl) (s : Server) : World → World → Type 1 where
  poll : {w : World} (id : RowId) (tags : List String) → Step fl e s w (poll_task id tags w).1
  progress : {w : World} (ids : List RowId) → Step fl e s w (report_progress List.[] ids w).1
  result : {w : World} (jitter : ℕ) (r : TaskResult) → Step fl e s w (report_result s jitter r w).1
  sync :
      {w : World} (jitter : TaskResult → ℕ) (rs : List TaskResult)
      → Step fl e s w (sync_offline_results s jitter rs w).1
  goroutine :
      {w : World} (job_id task_id : RowId) (outcome : Option String)
      → Step fl e s w (finish_goroutine s job_id task_id outcome w).1
  create : {w : World} (req : CreateJobRequest) → Step fl e s w (handle_create_job req w).1
  chain :
      {w : World} (chain_group source_id : RowId) (steps : List ChainStep)
      → Step fl e s w (handle_create_job_chain chain_group source_id steps w).1
  cancel : {w : World} (id : RowId) → Step fl e s w (handle_cancel_job id w).1
  retry : {w : World} (id : RowId) → Step fl e s w (handle_retry_job id w).1
  priority : {w : World} (id : RowId) (p : ℤ) → Step fl e s w (handle_update_job_priority id p w).1
  reorder : {w : World} (ids : List RowId) → Step fl e s w (handle_reorder_jobs ids w).1
  preempt : {w : World} (id : RowId) → Step fl e s w (handle_preempt_task id w).1
  sign_in : {w : World} (req : AgentInfo) → Step fl e s w (register s req w).1
  alive : {w : World} (id : RowId) (st : AgentState) → Step fl e s w (heartbeat id st w).1
  stale : {w : World} (threshold : ℕ) → Step fl e s w (check_stale_agents threshold w).1
  drain : {w : World} (id : RowId) → Step fl e s w (handle_drain_agent id w).1
  approve : {w : World} (id : RowId) → Step fl e s w (handle_approve_agent id w).1
  upgrade : {w : World} (id : RowId) → Step fl e s w (handle_request_agent_upgrade id w).1
  channel :
      {w : World} (id : RowId) (c : String) → Step fl e s w (handle_update_agent_channel id c w).1
  source : {w : World} (req : CreateSourceRequest) → Step fl e s w (handle_create_source req w).1
  analyze : {w : World} (id : RowId) → Step fl e s w (handle_analyze_source id w).1
  find_hdr : {w : World} (id : RowId) → Step fl e s w (handle_hdr_detect_source id w).1
  encode_source :
      {w : World} (id : RowId) (ty : JobType) (p : ℤ) (tags : Option (List String))
      → Step fl e s w (handle_encode_source id ty p tags w).1
  set_hdr :
      {w : World} (id : RowId) (h : String) (p : ℤ)
      → Step fl e s w (handle_update_source_hdr id h p w).1
  watch :
      {w : World} (fs : Files) (f : WatchFolder) (entries : Option (List (String × Bool)))
      (seen : List String)
      → Step fl e s w (scan fs f entries seen w).1
  schedule : {w : World} (c : Cron) → Step fl e s w (tick c w).1
  expand :
      {w : World} (rs : Reals) (fs : Flows) → Step fl e s w (expand_pending_jobs fl rs fs e w).1
  encode : {w : World} (job : Job) → Step fl e s w (expand_encode_job fl e job w).1
  single : {w : World} (job : Job) → Step fl e s w (expand_single_task_job fl e job w).1
  merge : {w : World} (job : Job) → Step fl e s w (expand_merge_job fl e job w).1
  hdr_detect : {w : World} (job : Job) → Step fl e s w (expand_hdr_detect_job fl e job w).1
  analysis : {w : World} (job : Job) → Step fl e s w (expand_controller_analysis_job fl e job w).1
  finish :
      {w : World} (job_id : RowId) (failed : Bool)
      → Step fl e s w (finish_analysis job_id failed w).1
  pass :
      {w : World} (now : ℕ) (faults : List Bool)
      → Step fl e s w (record w { now = now; faults = faults })

pub data Reach (fl : Float) (e : Engine fl) (s : Server) : World → World → Type 1 where
  start : {w : World} → Reach fl e s w w
  step : {u v w : World} → Reach fl e s u v → Step fl e s v w → Reach fl e s u w
