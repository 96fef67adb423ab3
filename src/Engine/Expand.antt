-- ===== src/Engine/Expand.antt =====
-- internal/controller/engine/expand.go and hdrdetect.go: a queued job is turned into tasks. What
-- the code gets from outside the tables of the model stands in the record `Engine`.
pub mod Encode
pub mod Clean
pub mod Valid
use text.Mathlib.Text.{◌==◌ as str_eq}
use encodeswarmr.Prelude.{
  ℕ, zero, suc, ℤ, pos, ◌+ℤ◌, ltbℤ, pos_part, String, Bool, true, false, not, ◌&&◌, ◌||◌, List, [],
  ◌∷◌, ◌++◌, Option, none, some, ltb, ◌==◌, if◌then◌else◌, length,
}
use encodeswarmr.Prelude.Text.{join, decimal_4}
use encodeswarmr.Db.Types.{
  RowId, no_id, Task, TaskType, Job, JobStatus, JobType, EncodeConfig, ChunkBoundary,
  ChunkingConfig, Source, Agent, AgentStatus, Variables,
}
use encodeswarmr.Db.Tasks.{
  CreateTaskParams, create_task, set_task_script_dir, delete_tasks_by_job_id,
}
use encodeswarmr.Db.Jobs.{unblock_dependent_jobs, update_job_status, update_job_task_counts}
use encodeswarmr.Db.Sources.{get_source_by_id}
use encodeswarmr.Exec.{
  Exec, Stmt, Result, ok, err, Err, Goroutine, pure, raise, call, catch, ignore, or_fail, outside,
  spawn, ◌>>=◌, ◌>>◌, continue,
}
use encodeswarmr.Engine.Float.{Float}
use encodeswarmr.Engine.Chunks.{compute_adaptive_chunks}

-- The script generator writes files, and `none` is its failure; `hdr_scripts` writes the built-in
-- scripts. `uuid_text` prints an identifier. `avg_fps` and `variables` stand for the tables of
-- statistics and of variables, and `name_before` for the database's order of texts.
pub record Engine (fl : Float) : Type 0 where
  pub render : Job → Task → Source → Option String
  pub render_concat : Job → Task → List String → String → Option String
  pub render_single : Job → Task → Source → Option String
  pub hdr_scripts : Job → Option String
  pub uuid_text : RowId → String
  pub avg_fps : RowId → fl.F
  pub variables : Variables
  pub name_before : String → String → Bool
  pub has_concat : Bool
  pub has_analysis : Bool

-- A Go map: `vars[key] = value`.
unfoldable pub set_var : String → String → Variables → Variables
set_var key value [] = (key, value) ∷ []
set_var key value (kv ∷ rest) =
    let later = kv ∷ set_var key value rest in
    if str_eq kv.0 key then (key, value) ∷ rest else later

unfoldable pub set_vars : Variables → Variables → Variables
unfolding set_var
set_vars [] vars = vars
set_vars (kv ∷ rest) vars = set_vars rest (set_var kv.0 kv.1 vars)

abbrev pub is_blank : String → Bool
is_blank String.[] = true
is_blank (String.◌∷◌ c s) = false

abbrev pub extension : Job → String
extension job =
    if is_blank job.encode_config.output_extension
    then "mkv"
    else job.encode_config.output_extension

-- The end of every expansion.
unfoldable pub finish_expansion : RowId → Exec (Unit {0})
finish_expansion job_id = do
  call (update_job_task_counts job_id)
  call (update_job_status job_id JobStatus.queued)

-- failJob: the tasks made so far are deleted, and the job has failed.
unfoldable pub fail_job : RowId → Exec (Unit {0})
fail_job job_id = do
  ignore (call (delete_tasks_by_job_id job_id))
  ignore (call (update_job_status job_id JobStatus.failed))

unfoldable pub mark_failed : RowId → Exec (Unit {0})
mark_failed job_id = ignore (call (update_job_status job_id JobStatus.failed))

abbrev pub task_params : Job → Source → ℕ → TaskType → String → Variables → CreateTaskParams
task_params job source chunk_index task_type output_path vars = record {
  job_id = job.id;
  chunk_index = chunk_index;
  task_type = task_type;
  source_path = source.unc_path;
  output_path = output_path;
  variables = vars;
}

-- A task, its scripts and their directory; an error at any step fails the job.
unfoldable pub create_with_scripts :
    RowId → CreateTaskParams → (Task → Option String) → Exec (Unit {0})
unfolding fail_job
create_with_scripts job_id p scripts = do
  task ← or_fail (call (create_task p)) (fail_job job_id)
  dir ← or_fail (outside (scripts task)) (fail_job job_id)
  or_fail (call (set_task_script_dir task.id dir)) (fail_job job_id)

module _ (fl : Float) where
  open fl use {F, zero_f}

  unfoldable pub expand_single_task_job : Engine fl → Job → Exec (Unit {0})
  unfolding create_with_scripts finish_expansion
  expand_single_task_job e job = do
    source ← call (get_source_by_id job.source_id)
    create_with_scripts job.id (task_params job source 0 TaskType.encode "" [])
        (λ task. e.render_single job task source)
    finish_expansion job.id

  abbrev pub merge_output : Engine fl → Job → String
  merge_output e job =
      join (
        job.encode_config.output_root
        ∷ "\\"
        ∷ e.uuid_text job.id
        ∷ "\\merged."
        ∷ extension job
        ∷ [])

  unfoldable pub expand_merge_job : Engine fl → Job → Exec (Unit {0})
  unfolding create_with_scripts finish_expansion set_vars join
  expand_merge_job e job = do
    source ← call (get_source_by_id job.source_id)
    create_with_scripts job.id
        (task_params job source 0 TaskType.encode (merge_output e job)
          (set_var "merge_output" (merge_output e job) job.encode_config.extra_vars))
        (λ task. e.render_single job task source)
    finish_expansion job.id

  -- ListVariables, on a table that the model has as a list.
  unfoldable pub list_variables : Engine fl → Stmt Variables
  list_variables e now db = (ok e.variables, db)

  abbrev pub hdr_variables : Engine fl → Job → Source → Variables → Variables
  hdr_variables e job source vars =
      set_var "SOURCE_PATH" source.unc_path
        (set_vars job.encode_config.extra_vars (set_vars vars []))

  unfoldable pub expand_hdr_detect_job : Engine fl → Job → Exec (Unit {0})
  unfolding create_with_scripts finish_expansion set_vars list_variables
  expand_hdr_detect_job e job = do
    source ← call (get_source_by_id job.source_id)
    vars ← call (list_variables e)
    create_with_scripts job.id
        (task_params job source 0 TaskType.encode "" (hdr_variables e job source vars))
        (λ task. e.hdr_scripts job)
    finish_expansion job.id

  -- The job runs on the controller's host, in a goroutine.
  unfoldable pub expand_controller_analysis_job : Engine fl → Job → Exec (Unit {0})
  expand_controller_analysis_job e job = do
    source ← call (get_source_by_id job.source_id)
    call (update_job_status job.id JobStatus.running)
    spawn (Goroutine.run_analysis job.id)

abbrev pub unblock_after : RowId → Result (Unit {0}) → Exec (Unit {0})
unblock_after job_id (ok _) = ignore (call (unblock_dependent_jobs job_id))
unblock_after job_id (err e) = pure tt

-- The end of that goroutine, after the runner has returned with an error or without. The
-- thumbnails that an analysis may leave in the source's row have no part in the model.
unfoldable pub finish_analysis : RowId → Bool → Exec (Unit {0})
finish_analysis job_id failed =
    if failed then ignore (call (update_job_status job_id JobStatus.failed)) else (do
      completed ← catch (call (update_job_status job_id JobStatus.completed))
      unblock_after job_id completed)
