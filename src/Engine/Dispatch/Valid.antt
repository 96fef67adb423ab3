-- ===== src/Engine/Dispatch/Valid.antt =====
-- The expansion of all pending jobs keeps the tables valid, whichever calls of the store fail.
use encodeswarmr.Prelude.{List, [], ◌∷◌}
use encodeswarmr.Db.Types.{Job, JobType}
use encodeswarmr.Db.IsValid.{IsValid}
use encodeswarmr.Db.Valid.{table_keeps}
use encodeswarmr.Exec.{pure}
use encodeswarmr.Exec.Keeps.{Keeps, keeps_rules, Keeps-pure, Keeps-bind, Keeps-if, Keeps-ignore}
use encodeswarmr.Engine.Float.{Float}
use encodeswarmr.Engine.Condition.{Reals}
use encodeswarmr.Engine.Expand.{Engine}
use encodeswarmr.Engine.Expand.Valid.{
  expand_encode_job-Keeps, expand_single_task_job-Keeps, expand_merge_job-Keeps,
  expand_hdr_detect_job-Keeps, expand_controller_analysis_job-Keeps,
}
use encodeswarmr.Engine.FlowJob.{Flows}
use encodeswarmr.Engine.FlowJob.Valid.{expand_flow_job-Keeps}
use encodeswarmr.Engine.Dispatch.{expand_by_type, expand_job, expand_jobs, expand_pending_jobs}

module _ (fl : Float) (rs : Reals) (fs : Flows) (e : Engine fl) where
  expand_by_type-Keeps :
      (job : Job) (ty : JobType) → Keeps IsValid (expand_by_type fl rs fs e job ty)
  unfolding pure
  expand_by_type-Keeps job JobType.encode = expand_encode_job-Keeps fl e job
  expand_by_type-Keeps job JobType.analysis = expand_single_task_job-Keeps fl e job
  expand_by_type-Keeps job JobType.audio = expand_single_task_job-Keeps fl e job
  expand_by_type-Keeps job JobType.hdr_detect = expand_hdr_detect_job-Keeps fl e job
  expand_by_type-Keeps job JobType.merge = expand_merge_job-Keeps fl e job
  expand_by_type-Keeps job JobType.unknown = record { at = λ w v. v }

  pub expand_job-Keeps : (job : Job) → Keeps IsValid (expand_job fl rs fs e job)
  unfolding expand_job
  expand_job-Keeps job = Keeps-if _ _ _ (expand_flow_job-Keeps fl rs fs e job) (
      Keeps-if _ _ _ (expand_controller_analysis_job-Keeps fl e job)
        (expand_by_type-Keeps job job.job_type))

  expand_jobs-Keeps : (jobs : List Job) → Keeps IsValid (expand_jobs fl rs fs e jobs)
  unfolding expand_jobs
  expand_jobs-Keeps [] = Keeps-pure tt
  expand_jobs-Keeps (job ∷ jobs) =
      Keeps-bind _ _ (Keeps-ignore _ (expand_job-Keeps job)) (λ _. expand_jobs-Keeps jobs)

  pub expand_pending_jobs-Keeps : Keeps IsValid (expand_pending_jobs fl rs fs e)
  unfolding expand_pending_jobs
  expand_pending_jobs-Keeps = search (keeps_rules, table_keeps, expand_jobs-Keeps) depth 6
