-- ===== src/Tests/Data.antt =====
-- A small set of tables: a job with a pending chunk, a failed chunk and the concatenation, a job
-- that has failed, and their source.
use encodeswarmr.Prelude.{
  ℕ, zero, suc, refl, pos, true, false, List, [], ◌∷◌, none, some, arith, any_of,
}
use encodeswarmr.Db.Types.{
  RowId, Task, TaskStatus, TaskType, Job, JobStatus, JobType, EncodeConfig, ChunkBoundary, Source,
  SourceState, Db,
}
use encodeswarmr.Db.IsValid.{IsValid}
use encodeswarmr.Exec.{World}
use encodeswarmr.Engine.Float.{whole}
use encodeswarmr.Engine.Expand.{Engine}
use encodeswarmr.Grpc.Server.{Server, TaskResult}

abbrev pub two_chunks : List ChunkBoundary
two_chunks =
    record { start_frame = pos 0; end_frame = pos 499 }
    ∷ record { start_frame = pos 500; end_frame = pos 999 }
    ∷ []

abbrev pub config : EncodeConfig
config = record {
  run_script_template_id = 7;
  chunk_boundaries = two_chunks;
  output_root = "out";
  output_extension = "";
  extra_vars = [];
  chunking_config = none;
  flow_id = 0;
}

abbrev pub job_with : RowId → JobStatus → Job
job_with id status = record {
  id = id;
  source_id = 9;
  status = status;
  job_type = JobType.encode;
  priority = pos 5;
  target_tags = [];
  tasks_total = 3;
  tasks_pending = 2;
  tasks_running = 0;
  tasks_completed = 0;
  tasks_failed = 1;
  encode_config = config;
  max_retries = pos 3;
  depends_on = none;
  chain_group = none;
  completed_at = none;
  failed_at = none;
  created_at = 100;
}

abbrev pub task_with : RowId → RowId → ℕ → TaskType → TaskStatus → Task
task_with id job_id chunk ty status = record {
  id = id;
  job_id = job_id;
  chunk_index = chunk;
  task_type = ty;
  status = status;
  agent_id = none;
  script_dir = "";
  source_path = "in";
  output_path = "out";
  variables = [];
  exit_code = none;
  metrics = none;
  error_msg = none;
  retry_count = 0;
  retry_after = none;
  preempted_at = none;
  started_at = none;
  completed_at = none;
}

abbrev pub running_job : Job
running_job = job_with 1 JobStatus.running

abbrev pub failed_job : Job
failed_job = job_with 6 JobStatus.failed

abbrev pub open_task : Task
open_task = task_with 2 1 0 TaskType.encode TaskStatus.pending

abbrev pub failed_task : Task
failed_task = task_with 3 1 1 TaskType.encode TaskStatus.failed

abbrev pub concat_task : Task
concat_task = task_with 4 1 2 TaskType.concat TaskStatus.pending

abbrev pub source : Source
source = record {
  id = 9;
  filename = "in.mkv";
  unc_path = "in";
  size_bytes = pos 0;
  detected_by = none;
  state = SourceState.detected;
  vmaf_score = none;
  cloud_uri = none;
  hdr_type = "";
  dv_profile = pos 0;
  thumbnails = [];
  watch_folder = none;
  category = "default";
}

abbrev pub tables : Db
tables = record {
  jobs = running_job ∷ failed_job ∷ [];
  tasks = open_task ∷ failed_task ∷ concat_task ∷ [];
  sources = source ∷ [];
  agents = [];
  logs = [];
  audit = [];
  schedules = [];
  next_id = 10;
}

abbrev pub world : World
world = record { db = tables; now = 1000; faults = []; events = []; goroutines = [] }

pub tables-IsValid : IsValid tables
unfolding any_of
tables-IsValid = record {
  task_ids_given = (omega arith, (omega arith, (omega arith, tt)));
  task_ids_distinct = (refl, (refl, (refl, tt)));
  slots_distinct = (refl, (refl, (refl, tt)));
  jobs_rows = ((omega arith, refl, refl), ((omega arith, refl, refl), tt));
  job_ids_distinct = (refl, (refl, tt));
  agent_table = record { given = tt; ids_distinct = tt; names_distinct = tt };
  source_table = record {
    given = (omega arith, tt);
    ids_distinct = (refl, tt);
    paths_distinct = (refl, tt);
  };
}

abbrev pub server : Server
server = record {
  concat_runner = true;
  vmaf_runner = false;
  validation_enabled = false;
  auto_approve = false;
  unmarshal_hdr = λ s. none;
}

-- The scripts of the second chunk cannot be written.
abbrev pub engine : Engine whole
engine = record {
  render = λ j t s. elim t.chunk_index [ zero ↦ some "dir" | suc n ↦ none ];
  render_concat = λ j t ps o. some "dir";
  render_single = λ j t s. some "dir";
  hdr_scripts = λ j. some "dir";
  uuid_text = λ id. "id";
  avg_fps = λ id. 24;
  variables = [];
  name_before = λ a b. false;
  has_concat = true;
  has_analysis = false;
}

abbrev pub offline_result : TaskResult
offline_result = record {
  task_id = 2;
  job_id = 1;
  success = true;
  exit_code = pos 0;
  error_msg = "";
  metrics = none;
  offline_result = true;
}
