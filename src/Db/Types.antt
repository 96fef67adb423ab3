-- ===== src/Db/Types.antt =====
-- internal/db/models.go: the rows, and the texts that the source compares them by as enumerations.
-- An identifier is a UUID that the database makes up: here a number, drawn from a counter, and 0 is
-- the empty text. Times are seconds.
use encodeswarmr.Prelude.{ℕ, ℤ, String, Bool, true, false, List, Option}

abbrev pub RowId : Type 0
RowId = ℕ

-- The empty text in place of an identifier.
abbrev pub no_id : RowId
no_id = 0

pub data TaskStatus : Type 0 where
  pending assigned running completed failed cancelled : TaskStatus

pub data JobStatus : Type 0 where
  waiting queued assigned running completed failed cancelled : JobStatus

pub data JobType : Type 0 where
  encode analysis audio hdr_detect merge unknown : JobType

pub data TaskType : Type 0 where
  encode concat twopass_pass1 twopass_pass2 vmaf_target : TaskType

pub data AgentStatus : Type 0 where
  pending_approval idle busy offline disabled draining : AgentStatus

-- `a == b` on the texts.
abbrev pub is_status : TaskStatus → TaskStatus → Bool
is_status TaskStatus.pending TaskStatus.pending = true
is_status TaskStatus.assigned TaskStatus.assigned = true
is_status TaskStatus.running TaskStatus.running = true
is_status TaskStatus.completed TaskStatus.completed = true
is_status TaskStatus.failed TaskStatus.failed = true
is_status TaskStatus.cancelled TaskStatus.cancelled = true
is_status _ _ = false

abbrev pub is_job_status : JobStatus → JobStatus → Bool
is_job_status JobStatus.waiting JobStatus.waiting = true
is_job_status JobStatus.queued JobStatus.queued = true
is_job_status JobStatus.assigned JobStatus.assigned = true
is_job_status JobStatus.running JobStatus.running = true
is_job_status JobStatus.completed JobStatus.completed = true
is_job_status JobStatus.failed JobStatus.failed = true
is_job_status JobStatus.cancelled JobStatus.cancelled = true
is_job_status _ _ = false

abbrev pub is_agent_status : AgentStatus → AgentStatus → Bool
is_agent_status AgentStatus.pending_approval AgentStatus.pending_approval = true
is_agent_status AgentStatus.idle AgentStatus.idle = true
is_agent_status AgentStatus.busy AgentStatus.busy = true
is_agent_status AgentStatus.offline AgentStatus.offline = true
is_agent_status AgentStatus.disabled AgentStatus.disabled = true
is_agent_status AgentStatus.draining AgentStatus.draining = true
is_agent_status _ _ = false

abbrev pub is_task_type : TaskType → TaskType → Bool
is_task_type TaskType.encode TaskType.encode = true
is_task_type TaskType.concat TaskType.concat = true
is_task_type TaskType.twopass_pass1 TaskType.twopass_pass1 = true
is_task_type TaskType.twopass_pass2 TaskType.twopass_pass2 = true
is_task_type TaskType.vmaf_target TaskType.vmaf_target = true
is_task_type _ _ = false

-- A Go map from texts to texts.
abbrev pub Variables : Type 0
Variables = List (String × String)

-- The results of a finished task. The rates and scores are floating-point numbers in the source;
-- they are kept in thousandths, and no operation here computes with them.
pub record Metrics : Type 0 where
  pub frames_encoded : ℕ
  pub avg_fps : ℕ
  pub output_size : ℕ
  pub duration_sec : ℕ
  pub vmaf_score : Option ℕ
  pub psnr : Option ℕ
  pub ssim : Option ℕ

pub record Task : Type 0 where
  pub id : RowId
  pub job_id : RowId
  pub chunk_index : ℕ
  pub task_type : TaskType
  pub status : TaskStatus
  pub agent_id : Option RowId
  pub script_dir : String
  pub source_path : String
  pub output_path : String
  pub variables : Variables
  pub exit_code : Option ℤ
  pub metrics : Option Metrics
  pub error_msg : Option String
  pub retry_count : ℕ
  pub retry_after : Option ℕ
  pub preempted_at : Option ℕ
  pub started_at : Option ℕ
  pub completed_at : Option ℕ

pub record ChunkBoundary : Type 0 where
  pub start_frame : ℤ
  pub end_frame : ℤ

pub record ChunkingConfig : Type 0 where
  pub chunk_size_frames : ℤ
  pub adaptive_chunking : Bool

pub record EncodeConfig : Type 0 where
  pub run_script_template_id : RowId
  pub chunk_boundaries : List ChunkBoundary
  pub output_root : String
  pub output_extension : String
  pub extra_vars : Variables
  pub chunking_config : Option ChunkingConfig
  pub flow_id : RowId

pub record Job : Type 0 where
  pub id : RowId
  pub source_id : RowId
  pub status : JobStatus
  pub job_type : JobType
  pub priority : ℤ
  pub target_tags : List String
  pub tasks_total : ℕ
  pub tasks_pending : ℕ
  pub tasks_running : ℕ
  pub tasks_completed : ℕ
  pub tasks_failed : ℕ
  pub encode_config : EncodeConfig
  pub max_retries : ℤ
  pub depends_on : Option RowId
  pub chain_group : Option RowId
  pub completed_at : Option ℕ
  pub failed_at : Option ℕ
  pub created_at : ℕ

pub data SourceState : Type 0 where
  detected scanning ready encoding done : SourceState

-- The score is in thousandths.
pub record Source : Type 0 where
  pub id : RowId
  pub filename : String
  pub unc_path : String
  pub size_bytes : ℤ
  pub detected_by : Option RowId
  pub state : SourceState
  pub vmaf_score : Option ℕ
  pub cloud_uri : Option String
  pub hdr_type : String
  pub dv_profile : ℤ
  pub thumbnails : List String
  pub watch_folder : Option String
  pub category : String

-- A row of the log table, whose identifier is a counter.
pub record TaskLog : Type 0 where
  pub id : ℕ
  pub task_id : RowId
  pub stream : String
  pub message : String

-- api_key_hash is not kept: no operation here reads it.
pub record Agent : Type 0 where
  pub id : RowId
  pub name : String
  pub hostname : String
  pub ip_address : String
  pub status : AgentStatus
  pub tags : List String
  pub gpu_vendor : String
  pub gpu_model : String
  pub gpu_enabled : Bool
  pub agent_version : String
  pub os_version : String
  pub cpu_count : ℤ
  pub ram_mib : ℤ
  pub nvenc : Bool
  pub qsv : Bool
  pub amf : Bool
  pub vnc_port : ℤ
  pub last_heartbeat : Option ℕ
  pub upgrade_requested : Bool
  pub update_channel : String

-- A row of the audit log; who acted and from where is not kept.
pub record AuditEntry : Type 0 where
  pub action : String
  pub resource : String
  pub resource_id : RowId

-- The template of the job is its JSON text.
pub record Schedule : Type 0 where
  pub id : RowId
  pub name : String
  pub cron_expr : String
  pub job_template : String
  pub enabled : Bool
  pub last_run_at : Option ℕ
  pub next_run_at : Option ℕ

-- The tables. `next_id` is the next identifier that `gen_random_uuid()` returns.
pub record Db : Type 0 where
  pub jobs : List Job
  pub tasks : List Task
  pub sources : List Source
  pub agents : List Agent
  pub logs : List TaskLog
  pub audit : List AuditEntry
  pub schedules : List Schedule
  pub next_id : RowId
