-- ===== src/Engine/Dispatch.antt =====
-- internal/controller/engine/expand.go, expandPendingJobs and expandJob.
pub mod Valid
use encodeswarmr.Prelude.{Bool, true, false, not, ◌&&◌, List, [], ◌∷◌, ◌==◌, if◌then◌else◌}
use encodeswarmr.Db.Types.{no_id, Job, JobType}
use encodeswarmr.Db.Jobs.{get_jobs_needing_expansion}
use encodeswarmr.Exec.{Exec, pure, call, ignore, ◌>>=◌, ◌>>◌}
use encodeswarmr.Engine.Float.{Float}
use encodeswarmr.Engine.Condition.{Reals}
use encodeswarmr.Engine.Expand.{
  Engine, expand_single_task_job, expand_merge_job, expand_hdr_detect_job,
  expand_controller_analysis_job,
}
use encodeswarmr.Engine.Expand.Encode.{expand_encode_job}
use encodeswarmr.Engine.FlowJob.{Flows, expand_flow_job}

-- isControllerAnalysisJob
abbrev pub is_controller_analysis_job : JobType → Bool
is_controller_analysis_job JobType.analysis = true
is_controller_analysis_job JobType.hdr_detect = true
is_controller_analysis_job JobType.audio = true
is_controller_analysis_job _ = false

module _ (fl : Float) (rs : Reals) (fs : Flows) (e : Engine fl) where
  abbrev pub expand_by_type : Job → JobType → Exec (Unit {0})
  expand_by_type job JobType.encode w = expand_encode_job fl e job w
  expand_by_type job JobType.analysis w = expand_single_task_job fl e job w
  expand_by_type job JobType.audio w = expand_single_task_job fl e job w
  expand_by_type job JobType.hdr_detect w = expand_hdr_detect_job fl e job w
  expand_by_type job JobType.merge w = expand_merge_job fl e job w
  expand_by_type job JobType.unknown w = pure tt w

  unfoldable pub expand_job : Job → Exec (Unit {0})
  expand_job job =
      if not (job.encode_config.flow_id == no_id)
      then expand_flow_job fl rs fs e job
      else if e.has_analysis && is_controller_analysis_job job.job_type
      then expand_controller_analysis_job fl e job
      else expand_by_type job job.job_type

  -- The errors of the jobs are logged one by one.
  unfoldable pub expand_jobs : List Job → Exec (Unit {0})
  unfolding expand_job
  expand_jobs [] = pure tt
  expand_jobs (job ∷ jobs) = do ignore (expand_job job); expand_jobs jobs

  unfoldable pub expand_pending_jobs : Exec (Unit {0})
  unfolding expand_jobs
  expand_pending_jobs = do jobs ← call get_jobs_needing_expansion; expand_jobs jobs
