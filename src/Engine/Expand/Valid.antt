-- ===== src/Engine/Expand/Valid.antt =====
-- The expansions of jobs keep the tables valid, whichever calls of the store fail.
use encodeswarmr.Prelude.{Bool, ℕ, suc, refl, String, List, [], ◌∷◌, Option, none, some}
use encodeswarmr.Db.Types.{
  RowId, Task, Job, JobStatus, ChunkBoundary, ChunkingConfig, Source, Agent,
}
use encodeswarmr.Db.IsValid.{IsValid}
use encodeswarmr.Db.Tasks.{CreateTaskParams}
use encodeswarmr.Db.Jobs.{update_job_status}
use encodeswarmr.Db.Valid.{table_keeps, update_job_status-keeps}
use encodeswarmr.Exec.{Result, ok, err}
use encodeswarmr.Exec.Keeps.{
  StmtKeeps, Keeps, keeps_rules, Keeps-pure, Keeps-call, Keeps-bind, Keeps-if, Keeps-catch,
}
use encodeswarmr.Engine.Float.{Float}
use encodeswarmr.Engine.Expand.{
  unblock_after, finish_analysis, Engine, create_with_scripts, fail_job, mark_failed,
  finish_expansion, list_variables, expand_single_task_job, expand_merge_job, expand_hdr_detect_job,
  expand_controller_analysis_job,
}
use encodeswarmr.Engine.Expand.Encode.{
  list_agents, get_agent_avg_fps, collect_fps, adapt_to, adapt_config, adapt, create_chunks,
  create_concat, expand_chunks, expand_encode_job,
}

ruleset store_keeps = (keeps_rules, table_keeps)

pub to_queued-keeps : (id : RowId) → StmtKeeps IsValid (update_job_status id JobStatus.queued)
to_queued-keeps id = update_job_status-keeps id JobStatus.queued refl

to_failed-keeps : (id : RowId) → StmtKeeps IsValid (update_job_status id JobStatus.failed)
to_failed-keeps id = update_job_status-keeps id JobStatus.failed refl

to_running-keeps : (id : RowId) → StmtKeeps IsValid (update_job_status id JobStatus.running)
to_running-keeps id = update_job_status-keeps id JobStatus.running refl

pub finish_expansion-Keeps : (id : RowId) → Keeps IsValid (finish_expansion id)
unfolding finish_expansion
finish_expansion-Keeps id = search (store_keeps, to_queued-keeps) depth 10

pub fail_job-Keeps : (id : RowId) → Keeps IsValid (fail_job id)
unfolding fail_job
fail_job-Keeps id = search (store_keeps, to_failed-keeps) depth 10

pub mark_failed-Keeps : (id : RowId) → Keeps IsValid (mark_failed id)
unfolding mark_failed
mark_failed-Keeps id = search (store_keeps, to_failed-keeps) depth 10

unblock_after-Keeps : (id : RowId) (r : Result (Unit {0})) → Keeps IsValid (unblock_after id r)
unblock_after-Keeps id (ok _) = search store_keeps
unblock_after-Keeps id (err e) = Keeps-pure tt

to_completed-keeps : (id : RowId) → StmtKeeps IsValid (update_job_status id JobStatus.completed)
to_completed-keeps id = update_job_status-keeps id JobStatus.completed refl

pub finish_analysis-Keeps : (id : RowId) (failed : Bool) → Keeps IsValid (finish_analysis id failed)
unfolding finish_analysis
finish_analysis-Keeps id failed =
    search (store_keeps, to_failed-keeps, to_completed-keeps, unblock_after-Keeps) depth 10

create_with_scripts-Keeps :
    (id : RowId) (p : CreateTaskParams) (scripts : Task → Option String)
    → Keeps IsValid (create_with_scripts id p scripts)
unfolding create_with_scripts
create_with_scripts-Keeps id p scripts = search (store_keeps, fail_job-Keeps) depth 12

module _ (fl : Float) where
  pub expand_single_task_job-Keeps :
      (e : Engine fl) (job : Job) → Keeps IsValid (expand_single_task_job fl e job)
  unfolding expand_single_task_job
  expand_single_task_job-Keeps e job =
      search (store_keeps, create_with_scripts-Keeps, finish_expansion-Keeps) depth 12

  pub expand_merge_job-Keeps :
      (e : Engine fl) (job : Job) → Keeps IsValid (expand_merge_job fl e job)
  unfolding expand_merge_job
  expand_merge_job-Keeps e job =
      search (store_keeps, create_with_scripts-Keeps, finish_expansion-Keeps) depth 12

  list_variables-keeps : (e : Engine fl) → StmtKeeps IsValid (list_variables fl e)
  unfolding list_variables
  list_variables-keeps e = record { at = λ now db v. v }

  pub expand_hdr_detect_job-Keeps :
      (e : Engine fl) (job : Job) → Keeps IsValid (expand_hdr_detect_job fl e job)
  unfolding expand_hdr_detect_job
  expand_hdr_detect_job-Keeps e job =
      search (store_keeps, create_with_scripts-Keeps, finish_expansion-Keeps, list_variables-keeps)
        depth 14

  pub expand_controller_analysis_job-Keeps :
      (e : Engine fl) (job : Job) → Keeps IsValid (expand_controller_analysis_job fl e job)
  unfolding expand_controller_analysis_job
  expand_controller_analysis_job-Keeps e job = search (store_keeps, to_running-keeps) depth 10

  list_agents-keeps : (e : Engine fl) → StmtKeeps IsValid (list_agents fl e)
  unfolding list_agents
  list_agents-keeps e = record { at = λ now db v. v }

  get_agent_avg_fps-keeps :
      (e : Engine fl) (id : RowId) → StmtKeeps IsValid (get_agent_avg_fps fl e id)
  unfolding get_agent_avg_fps
  get_agent_avg_fps-keeps e id = record { at = λ now db v. v }

  collect_fps-Keeps : (e : Engine fl) (as' : List Agent) → Keeps IsValid (collect_fps fl e as')
  unfolding collect_fps
  collect_fps-Keeps e [] = Keeps-pure []
  collect_fps-Keeps e (a ∷ rest) =
      Keeps-if _ _ _
        (Keeps-bind _ _ (Keeps-catch _ (Keeps-call _ (get_agent_avg_fps-keeps e a.id)))
          λ _. Keeps-bind _ _ (collect_fps-Keeps e rest) λ _. Keeps-pure _)
        (collect_fps-Keeps e rest)

  adapt_to-Keeps :
      (e : Engine fl) (job : Job) (chunking : ChunkingConfig) (r : Result (List Agent))
      → Keeps IsValid (adapt_to fl e job chunking r)
  adapt_to-Keeps e job chunking (ok agents) = search (store_keeps, collect_fps-Keeps) depth 8
  adapt_to-Keeps e job chunking (err x) = Keeps-pure job

  adapt_config-Keeps :
      (e : Engine fl) (job : Job) (o : Option ChunkingConfig)
      → Keeps IsValid (adapt_config fl e job o)
  adapt_config-Keeps e job none = Keeps-pure job
  adapt_config-Keeps e job (some chunking) =
      Keeps-if _ _ _
        (Keeps-bind _ _ (Keeps-catch _ (Keeps-call _ (list_agents-keeps e)))
          (adapt_to-Keeps e job chunking))
        (Keeps-pure job)

  adapt-Keeps : (e : Engine fl) (job : Job) → Keeps IsValid (adapt fl e job)
  unfolding adapt
  adapt-Keeps e job = adapt_config-Keeps e job job.encode_config.chunking_config

  create_chunks-Keeps :
      (e : Engine fl) (job : Job) (source : Source) (i : ℕ) (bs : List ChunkBoundary)
      → Keeps IsValid (create_chunks fl e job source i bs)
  unfolding create_chunks
  create_chunks-Keeps e job source i [] = Keeps-pure []
  create_chunks-Keeps e job source i (b ∷ bs) =
      Keeps-bind _ _ (create_with_scripts-Keeps job.id _ _)
        λ _. Keeps-bind _ _ (create_chunks-Keeps e job source (suc i) bs) λ _. Keeps-pure _

  create_concat-Keeps :
      (e : Engine fl) (job : Job) (source : Source) (n : ℕ) (paths : List String)
      → Keeps IsValid (create_concat fl e job source n paths)
  unfolding create_concat
  create_concat-Keeps e job source n paths = search (store_keeps, mark_failed-Keeps) depth 16

  expand_chunks-Keeps : (e : Engine fl) (job : Job) → Keeps IsValid (expand_chunks fl e job)
  unfolding expand_chunks
  expand_chunks-Keeps e job =
      search (store_keeps, create_chunks-Keeps, create_concat-Keeps, finish_expansion-Keeps) depth
        14

  pub expand_encode_job-Keeps :
      (e : Engine fl) (job : Job) → Keeps IsValid (expand_encode_job fl e job)
  unfolding expand_encode_job
  expand_encode_job-Keeps e job = search (store_keeps, adapt-Keeps, expand_chunks-Keeps) depth 8
