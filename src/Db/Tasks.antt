-- ===== src/Db/Tasks.antt =====
-- internal/db/queries.go: the queries on the table of tasks, each one statement. A new row goes to
-- the end of its table.
pub mod Claims
use encodeswarmr.Prelude.{
  ℕ, suc, ℤ, String, Bool, not, ◌&&◌, ◌||◌, List, [], ◌∷◌, ◌++◌, Option, none, some, leb, ◌==◌,
  if◌then◌else◌, select, find_first, any_of, update_where, max,
}
use encodeswarmr.Db.Types.{RowId, Task, TaskStatus, TaskType, Metrics, Variables, Db, is_status}
use encodeswarmr.Exec.{Stmt, Result, ok, err, Err}

pub record CreateTaskParams : Type 0 where
  pub job_id : RowId
  pub chunk_index : ℕ
  pub task_type : TaskType
  pub source_path : String
  pub output_path : String
  pub variables : Variables

pub record CompleteTaskParams : Type 0 where
  pub id : RowId
  pub exit_code : ℤ
  pub metrics : Metrics

-- `WHERE id = $1` and `WHERE job_id = $1`.
abbrev pub has_id : RowId → Task → Bool
has_id id t = t.id == id

abbrev pub of_job : RowId → Task → Bool
of_job id t = t.job_id == id

-- UNIQUE (job_id, chunk_index).
abbrev pub same_slot : Task → Task → Bool
same_slot t u = u.job_id == t.job_id && u.chunk_index == t.chunk_index

-- A row of a job that exists is inserted unless the unique constraint refuses it.
unfoldable pub insert_row : Task → Db → Result Task × Db
insert_row t db =
    if any_of (same_slot t) db.tasks
    then (err Err.unique_violation, db)
    else (ok t, record db { tasks = db.tasks ++ t ∷ []; next_id = suc db.next_id })

-- REFERENCES jobs (id)
unfoldable pub insert_task : Task → Db → Result Task × Db
unfolding insert_row
insert_task t db =
    if any_of (λ j. j.id == t.job_id) db.jobs
    then insert_row t db
    else (err Err.foreign_key_violation, db)

-- A row with the column defaults.
unfoldable pub new_task : CreateTaskParams → RowId → Task
new_task p id = record {
  id = id;
  job_id = p.job_id;
  chunk_index = p.chunk_index;
  task_type = p.task_type;
  status = TaskStatus.pending;
  agent_id = none;
  script_dir = "";
  source_path = p.source_path;
  output_path = p.output_path;
  variables = p.variables;
  exit_code = none;
  metrics = none;
  error_msg = none;
  retry_count = 0;
  retry_after = none;
  preempted_at = none;
  started_at = none;
  completed_at = none;
}

unfoldable pub create_task : CreateTaskParams → Stmt Task
unfolding insert_task new_task
create_task p now db = insert_task (new_task p db.next_id) db

abbrev pub found {ℓ} : {A : Type ℓ} → Option A → Result A
found none = err Err.not_found
found (some a) = ok a

unfoldable pub get_task_by_id : RowId → Stmt Task
get_task_by_id id now db = (found (find_first (has_id id) db.tasks), db)

-- ORDER BY chunk_index.
unfoldable pub insert_by_chunk : Task → List Task → List Task
insert_by_chunk t [] = t ∷ []
insert_by_chunk t (u ∷ us) =
    let later = u ∷ insert_by_chunk t us in
    if leb t.chunk_index u.chunk_index then t ∷ u ∷ us else later

unfoldable pub sort_by_chunk : List Task → List Task
unfolding insert_by_chunk
sort_by_chunk [] = []
sort_by_chunk (t ∷ ts) = insert_by_chunk t (sort_by_chunk ts)

unfoldable pub list_tasks_by_job : RowId → Stmt (List Task)
unfolding sort_by_chunk
list_tasks_by_job job_id now db = (ok (sort_by_chunk (select (of_job job_id) db.tasks)), db)

-- `RowsAffected() == 0` is ErrNotFound.
unfoldable pub update_or_missing : (Task → Bool) → (Task → Task) → Db → Result (Unit {0}) × Db
update_or_missing p f db =
    if any_of p db.tasks
    then (ok tt, record db { tasks = update_where p f db.tasks })
    else (err Err.not_found, db)

unfoldable pub update_all : (Task → Bool) → (Task → Task) → Db → Result (Unit {0}) × Db
update_all p f db = (ok tt, record db { tasks = update_where p f db.tasks })

abbrev pub to_running : ℕ → Task → Task
to_running now t = record t { status = TaskStatus.running; started_at = some now }

-- pending → running, for the controller's own runners; compare-and-set on the status.
unfoldable pub claim_concat_task : RowId → Stmt (Unit {0})
unfolding update_or_missing
claim_concat_task id now =
    update_or_missing (λ t. t.id == id && is_status t.status TaskStatus.pending) (to_running now)

unfoldable pub update_task_status : RowId → TaskStatus → Stmt (Unit {0})
unfolding update_or_missing
update_task_status id status now = update_or_missing (has_id id) (λ t. record t { status = status })

unfoldable pub set_task_script_dir : RowId → String → Stmt (Unit {0})
unfolding update_or_missing
set_task_script_dir id dir now = update_or_missing (has_id id) (λ t. record t { script_dir = dir })

abbrev pub to_completed : CompleteTaskParams → ℕ → Task → Task
to_completed p now t = record t {
  status = TaskStatus.completed;
  exit_code = some p.exit_code;
  metrics = some p.metrics;
  completed_at = some now;
}

unfoldable pub complete_task : CompleteTaskParams → Stmt (Unit {0})
unfolding update_all
complete_task p now = update_all (has_id p.id) (to_completed p now)

abbrev pub to_failed : ℤ → String → ℕ → Task → Task
to_failed exit_code msg now t = record t {
  status = TaskStatus.failed;
  exit_code = some exit_code;
  error_msg = some msg;
  completed_at = some now;
}

unfoldable pub fail_task : RowId → ℤ → String → Stmt (Unit {0})
unfolding update_all
fail_task id exit_code msg now = update_all (has_id id) (to_failed exit_code msg now)

-- status IN ('pending', 'assigned')
abbrev pub is_open : Task → Bool
is_open t = is_status t.status TaskStatus.pending || is_status t.status TaskStatus.assigned

unfoldable pub cancel_pending_tasks_for_job : RowId → Stmt (Unit {0})
unfolding update_all
cancel_pending_tasks_for_job job_id now =
    update_all (λ t. t.job_id == job_id && is_open t)
      (λ t. record t { status = TaskStatus.cancelled })

unfoldable pub delete_tasks_by_job_id : RowId → Stmt (Unit {0})
delete_tasks_by_job_id job_id now db =
    (ok tt, record db { tasks = select (λ t. not (of_job job_id t)) db.tasks })

-- A failed row made ready to run again, its results cleared.
abbrev pub to_retried : Task → Task
to_retried t = record t {
  status = TaskStatus.pending;
  agent_id = none;
  exit_code = none;
  metrics = none;
  error_msg = none;
  started_at = none;
  completed_at = none;
}

unfoldable pub retry_failed_tasks_for_job : RowId → Stmt (Unit {0})
unfolding update_all
retry_failed_tasks_for_job job_id now =
    update_all (λ t. t.job_id == job_id && is_status t.status TaskStatus.failed) to_retried

abbrev pub to_preempted : ℕ → Task → Task
to_preempted now t = record t {
  status = TaskStatus.pending;
  preempted_at = some now;
  agent_id = none;
  started_at = none;
}

unfoldable pub preempt_task : RowId → Stmt (Unit {0})
unfolding update_or_missing
preempt_task id now =
    update_or_missing
      (λ t.
        t.id == id
        && (is_status t.status TaskStatus.assigned || is_status t.status TaskStatus.running))
      (to_preempted now)

abbrev pub to_reset : Task → Task
to_reset t = record t { status = TaskStatus.pending; agent_id = none; started_at = none }

unfoldable pub reset_task : RowId → Stmt (Unit {0})
unfolding update_or_missing
reset_task id now = update_or_missing (has_id id) to_reset

-- COALESCE(MAX(chunk_index), 0) + 1 over the tasks of a job.
unfoldable pub max_chunk : RowId → List Task → ℕ
max_chunk job_id [] = 0
max_chunk job_id (t ∷ ts) =
    let rest = max_chunk job_id ts in if of_job job_id t then max t.chunk_index rest else rest
