-- ===== src/Reach/Valid.antt =====
-- What holds in every state that the controller reaches.
use encodeswarmr.Prelude.{◌≢◌, sym, ap, ◌∙◌, false≢true, List, [], ◌∷◌, All}
use encodeswarmr.Db.Types.{RowId, Job, JobStatus}
use encodeswarmr.Db.IsValid.{IsValid, IsRow}
use encodeswarmr.Db.Jobs.{status_allowed}
use encodeswarmr.Exec.{World}
use encodeswarmr.Engine.Float.{Float}
use encodeswarmr.Engine.Expand.{Engine}
use encodeswarmr.Engine.Expand.Valid.{
  finish_analysis-Keeps, expand_encode_job-Keeps, expand_single_task_job-Keeps,
  expand_merge_job-Keeps, expand_hdr_detect_job-Keeps, expand_controller_analysis_job-Keeps,
}
use encodeswarmr.Grpc.Server.{Server}
use encodeswarmr.Grpc.Valid.{report_result-Keeps, finish_goroutine-Keeps}
use encodeswarmr.Grpc.Valid.Calls.{
  poll_task-Keeps, report_progress-Keeps, sync_offline_results-Keeps,
}
use encodeswarmr.Api.Valid.{
  handle_create_job-Keeps, handle_create_job_chain-Keeps, handle_cancel_job-Keeps,
  handle_retry_job-Keeps, handle_update_job_priority-Keeps, handle_reorder_jobs-Keeps,
  handle_preempt_task-Keeps,
}
use encodeswarmr.Api.Valid.{
  handle_drain_agent-Keeps, handle_approve_agent-Keeps, handle_request_agent_upgrade-Keeps,
  handle_update_agent_channel-Keeps, handle_create_source-Keeps, handle_analyze_source-Keeps,
  handle_hdr_detect_source-Keeps, handle_encode_source-Keeps, handle_update_source_hdr-Keeps,
}
use encodeswarmr.Grpc.Valid.Agents.{register-Keeps, heartbeat-Keeps, check_stale_agents-Keeps}
use encodeswarmr.Engine.Dispatch.Valid.{expand_pending_jobs-Keeps}
use encodeswarmr.Db.Valid.{
  create_job-Keeps, create_source-keeps, get_source_by_unc_path-keeps, update_source_watch-keeps,
}
use encodeswarmr.Watcher.Keeps.{scan-Keeps}
use encodeswarmr.Scheduler.Valid.{tick-Keeps}
use encodeswarmr.Reach.{Step, Reach}

module _ (fl : Float) (e : Engine fl) (s : Server) where
  Step-keeps : {v w : World} → Step fl e s v w → IsValid v.db → IsValid w.db
  Step-keeps (Step.poll {w} id tags) h = (poll_task-Keeps id tags).at w h
  Step-keeps (Step.progress {w} ids) h = (report_progress-Keeps [] ids).at w h
  Step-keeps (Step.result {w} jitter r) h = (report_result-Keeps s jitter r).at w h
  Step-keeps (Step.sync {w} jitter rs) h = (sync_offline_results-Keeps s jitter rs).at w h
  Step-keeps (Step.goroutine {w} j t o) h = (finish_goroutine-Keeps s j t o).at w h
  Step-keeps (Step.create {w} req) h = (handle_create_job-Keeps req).at w h
  Step-keeps (Step.chain {w} g id steps) h = (handle_create_job_chain-Keeps g id steps).at w h
  Step-keeps (Step.cancel {w} id) h = (handle_cancel_job-Keeps id).at w h
  Step-keeps (Step.retry {w} id) h = (handle_retry_job-Keeps id).at w h
  Step-keeps (Step.priority {w} id p) h = (handle_update_job_priority-Keeps id p).at w h
  Step-keeps (Step.reorder {w} ids) h = (handle_reorder_jobs-Keeps ids).at w h
  Step-keeps (Step.preempt {w} id) h = (handle_preempt_task-Keeps id).at w h
  Step-keeps (Step.sign_in {w} req) h = (register-Keeps s req).at w h
  Step-keeps (Step.alive {w} id st) h = (heartbeat-Keeps id st).at w h
  Step-keeps (Step.stale {w} threshold) h = (check_stale_agents-Keeps threshold).at w h
  Step-keeps (Step.drain {w} id) h = (handle_drain_agent-Keeps id).at w h
  Step-keeps (Step.approve {w} id) h = (handle_approve_agent-Keeps id).at w h
  Step-keeps (Step.upgrade {w} id) h = (handle_request_agent_upgrade-Keeps id).at w h
  Step-keeps (Step.channel {w} id c) h = (handle_update_agent_channel-Keeps id c).at w h
  Step-keeps (Step.source {w} req) h = (handle_create_source-Keeps req).at w h
  Step-keeps (Step.analyze {w} id) h = (handle_analyze_source-Keeps id).at w h
  Step-keeps (Step.find_hdr {w} id) h = (handle_hdr_detect_source-Keeps id).at w h
  Step-keeps (Step.encode_source {w} id ty p tags) h =
      (handle_encode_source-Keeps id ty p tags).at w h
  Step-keeps (Step.set_hdr {w} id x p) h = (handle_update_source_hdr-Keeps id x p).at w h
  Step-keeps (Step.watch {w} fs f entries seen) h =
      (scan-Keeps (λ id. create_job-Keeps _) (λ id. create_job-Keeps _) create_source-keeps
          get_source_by_unc_path-keeps update_source_watch-keeps fs f entries seen).at
        w h
  Step-keeps (Step.schedule {w} c) h = (tick-Keeps c).at w h
  Step-keeps (Step.expand {w} rs fs) h = (expand_pending_jobs-Keeps fl rs fs e).at w h
  Step-keeps (Step.encode {w} job) h = (expand_encode_job-Keeps fl e job).at w h
  Step-keeps (Step.single {w} job) h = (expand_single_task_job-Keeps fl e job).at w h
  Step-keeps (Step.merge {w} job) h = (expand_merge_job-Keeps fl e job).at w h
  Step-keeps (Step.hdr_detect {w} job) h = (expand_hdr_detect_job-Keeps fl e job).at w h
  Step-keeps (Step.analysis {w} job) h = (expand_controller_analysis_job-Keeps fl e job).at w h
  Step-keeps (Step.finish {w} id failed) h = (finish_analysis-Keeps id failed).at w h
  Step-keeps (Step.pass {w} now faults) h = h

  -- From valid tables, the handlers in any order, with any calls of the store failing, only reach
  -- valid tables: identifiers of jobs, tasks, agents and sources are unique, and so are the names of
  -- agents and the paths of sources, a job has one task in each place, and every job's status and
  -- type pass the constraints of the columns.
  pub Reach-IsValid : {v w : World} → Reach fl e s v w → IsValid v.db → IsValid w.db
  Reach-IsValid Reach.start h = h
  Reach-IsValid (Reach.step {v} p q) h = Step-keeps q (Reach-IsValid p h)

  not_waiting :
      (n : RowId) (js : List Job) → All (IsRow n) js → All (λ j. j.status ≢ JobStatus.waiting) js
  not_waiting n [] h = tt
  not_waiting n (j ∷ js) h =
      ((λ k. false≢true (sym (ap status_allowed k) ∙ h.0.1)), not_waiting n js h.1)

  -- No state that is reached from valid tables has a job that waits for another one.
  pub Reach-no_waiting :
      {v w : World}
      → Reach fl e s v w
      → IsValid v.db
      → All (λ j. j.status ≢ JobStatus.waiting) w.db.jobs
  Reach-no_waiting {v} {w} p h = not_waiting w.db.next_id w.db.jobs (Reach-IsValid p h).jobs_rows
