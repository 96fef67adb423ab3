-- ===== src/Db/Jobs.antt =====
-- internal/db/queries.go: the queries on the table of jobs, and the constraints on its columns that
-- internal/db/migrations puts there.
pub mod Counts
pub mod Create
pub mod Status
use encodeswarmr.Prelude.{
  ℕ, suc, ℤ, ltbℤ, String, Bool, true, false, ◌&&◌, ◌||◌, List, [], ◌∷◌, ◌++◌, Option, none, some,
  ltb, ◌==◌, if◌then◌else◌, count_if, select, find_first, any_of, update_where,
}
use encodeswarmr.Db.Types.{
  RowId, Task, TaskStatus, Job, JobStatus, JobType, EncodeConfig, Source, Db, is_status,
  is_job_status,
}
use encodeswarmr.Exec.{Exec, Stmt, Result, ok, err, Err, pure, call, catch, ◌>>=◌}
use encodeswarmr.Db.Tasks.{of_job, found}

-- A nil slice of tags is `none`: the driver sends it as NULL.
pub record CreateJobParams : Type 0 where
  pub source_id : RowId
  pub job_type : JobType
  pub priority : ℤ
  pub target_tags : Option (List String)
  pub encode_config : EncodeConfig
  pub max_retries : ℤ
  pub depends_on : Option RowId
  pub chain_group : Option RowId

abbrev pub has_job_id : RowId → Job → Bool
has_job_id id j = j.id == id

-- CHECK (status IN (...)) of migration 002, which no later migration changes.
abbrev pub status_allowed : JobStatus → Bool
status_allowed JobStatus.waiting = false
status_allowed _ = true

-- CHECK (job_type IN (...)) of migration 011.
abbrev pub job_type_allowed : JobType → Bool
job_type_allowed JobType.encode = true
job_type_allowed JobType.analysis = true
job_type_allowed JobType.audio = true
job_type_allowed JobType.hdr_detect = true
job_type_allowed _ = false

-- The status of a new job, by the answer of the lookup of its dependency: a lookup that fails, for
-- whatever reason, counts as no dependency.
abbrev pub status_after_dependency : Result JobStatus → JobStatus
status_after_dependency (err e) = JobStatus.queued
status_after_dependency (ok s) =
    if is_job_status s JobStatus.completed then JobStatus.queued else JobStatus.waiting

abbrev pub status_column : Option Job → Result JobStatus
status_column none = err Err.not_found
status_column (some j) = ok j.status

unfoldable pub get_job_status : RowId → Stmt JobStatus
get_job_status id now db = (status_column (find_first (has_job_id id) db.jobs), db)

unfoldable pub initial_status : Option RowId → Exec JobStatus
unfolding get_job_status
initial_status none = pure JobStatus.queued
initial_status (some dep) = do
  s ← catch (call (get_job_status dep))
  pure (status_after_dependency s)

abbrev pub or_nil {ℓ} : {A : Type ℓ} → Option (List A) → List A
or_nil none = []
or_nil (some xs) = xs

-- target_tags NOT NULL
abbrev pub not_null {ℓ} : {A : Type ℓ} → Option A → Bool
not_null none = false
not_null (some a) = true

unfoldable pub new_job : CreateJobParams → JobStatus → RowId → ℕ → Job
new_job p status id now = record {
  id = id;
  source_id = p.source_id;
  status = status;
  job_type = p.job_type;
  priority = p.priority;
  target_tags = or_nil p.target_tags;
  tasks_total = 0;
  tasks_pending = 0;
  tasks_running = 0;
  tasks_completed = 0;
  tasks_failed = 0;
  encode_config = p.encode_config;
  max_retries = p.max_retries;
  depends_on = p.depends_on;
  chain_group = p.chain_group;
  completed_at = none;
  failed_at = none;
  created_at = now;
}

-- REFERENCES sources (id), and REFERENCES jobs (id) of migration 025.
abbrev pub refers : CreateJobParams → Db → Bool
refers p db =
    any_of (λ s. s.id == p.source_id) db.sources
    && elim p.depends_on [ none ↦ true | some dep ↦ any_of (has_job_id dep) db.jobs ]

-- INSERT, with the constraints on the columns.
unfoldable pub insert_job : CreateJobParams → JobStatus → Stmt Job
unfolding new_job
insert_job p status now db =
    let j = new_job p status db.next_id now in
    if status_allowed status && job_type_allowed p.job_type && not_null p.target_tags
    then (if refers p db
        then (ok j, record db { jobs = db.jobs ++ j ∷ []; next_id = suc db.next_id })
        else (err Err.foreign_key_violation, db))
    else (err Err.check_violation, db)

-- Two statements: the lookup of the dependency, if there is one, and the insert.
unfoldable pub create_job : CreateJobParams → Exec Job
unfolding initial_status insert_job
create_job p = do status ← initial_status p.depends_on; call (insert_job p status)

unfoldable pub get_job_by_id : RowId → Stmt Job
get_job_by_id id now db = (found (find_first (has_job_id id) db.jobs), db)

-- ORDER BY priority DESC, created_at ASC
abbrev pub job_before : Job → Job → Bool
job_before j k =
    if ltbℤ k.priority j.priority
    then true
    else if ltbℤ j.priority k.priority
    then false
    else ltb j.created_at k.created_at

unfoldable pub insert_by_rank : Job → List Job → List Job
insert_by_rank j [] = j ∷ []
insert_by_rank j (k ∷ ks) =
    let later = k ∷ insert_by_rank j ks in if job_before k j then later else j ∷ k ∷ ks

unfoldable pub sort_by_rank : List Job → List Job
unfolding insert_by_rank
sort_by_rank [] = []
sort_by_rank (j ∷ js) = insert_by_rank j (sort_by_rank js)

abbrev pub needs_expansion : Job → Bool
needs_expansion j = is_job_status j.status JobStatus.queued && j.tasks_total == 0

unfoldable pub get_jobs_needing_expansion : Stmt (List Job)
unfolding sort_by_rank
get_jobs_needing_expansion now db = (ok (sort_by_rank (select needs_expansion db.jobs)), db)

unfoldable pub list_pending_jobs : Stmt (List Job)
unfolding sort_by_rank
list_pending_jobs now db = (
  ok (
      sort_by_rank (
        select
          (λ j. is_job_status j.status JobStatus.queued || is_job_status j.status JobStatus.waiting)
          db.jobs)),
  db,
)

unfoldable pub update_job_or_missing : RowId → (Job → Job) → Db → Result (Unit {0}) × Db
update_job_or_missing id f db =
    if any_of (has_job_id id) db.jobs
    then (ok tt, record db { jobs = update_where (has_job_id id) f db.jobs })
    else (err Err.not_found, db)

abbrev pub with_job_status : JobStatus → ℕ → Job → Job
with_job_status JobStatus.completed now j = record j {
  status = JobStatus.completed;
  completed_at = some now;
}
with_job_status JobStatus.failed now j = record j {
  status = JobStatus.failed;
  failed_at = some now;
}
with_job_status status now j = record j { status = status }

unfoldable pub update_job_status : RowId → JobStatus → Stmt (Unit {0})
unfolding update_job_or_missing
update_job_status id status now = update_job_or_missing id (with_job_status status now)

unfoldable pub update_job_priority : RowId → ℤ → Stmt (Unit {0})
unfolding update_job_or_missing
update_job_priority id priority now =
    update_job_or_missing id (λ j. record j { priority = priority })

-- How many tasks of a job have a status.
unfoldable pub count_status : RowId → TaskStatus → List Task → ℕ
count_status job_id s = count_if (λ t. of_job job_id t && is_status t.status s)

abbrev pub with_counts : List Task → Job → Job
with_counts tasks j = record j {
  tasks_total = count_if (of_job j.id) tasks;
  tasks_pending = count_status j.id TaskStatus.pending tasks;
  tasks_running = count_status j.id TaskStatus.running tasks;
  tasks_completed = count_status j.id TaskStatus.completed tasks;
  tasks_failed = count_status j.id TaskStatus.failed tasks;
}

unfoldable pub update_job_task_counts : RowId → Stmt (Unit {0})
unfolding count_status
update_job_task_counts id now db =
    (ok tt, record db { jobs = update_where (has_job_id id) (with_counts db.tasks) db.jobs })

abbrev pub depends_on_job : RowId → Option RowId → Bool
depends_on_job id none = false
depends_on_job id (some dep) = dep == id

abbrev pub waits_for : RowId → Job → Bool
waits_for id j = depends_on_job id j.depends_on && is_job_status j.status JobStatus.waiting

unfoldable pub unblock_dependent_jobs : RowId → Stmt (Unit {0})
unblock_dependent_jobs id now db = (
  ok tt,
  record db {
    jobs = update_where (waits_for id) (λ j. record j { status = JobStatus.queued }) db.jobs;
  },
)
