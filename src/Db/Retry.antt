-- ===== src/Db/Retry.antt =====
-- internal/db/queries.go, RetryTaskWithBackoff and RetryTaskWithBackoffJitter: a failed task gets a
-- successor, which waits for a time that doubles with each retry.
pub mod Backoff
pub mod Successor
use encodeswarmr.Prelude.{
  ℕ, suc, ◌+◌, ◌-◌, ◌*◌, ◌^◌, ◌%◌, ℤ, pos, negsuc, ◌+ℤ◌, ltbℤ, pos_part, Option, none, some, ltb,
  if◌then◌else◌, find_first,
}
use encodeswarmr.Db.Types.{RowId, Task, TaskStatus, Db}
use encodeswarmr.Exec.{Stmt, Result, ok, err, Err}
use encodeswarmr.Db.Tasks.{has_id, insert_row, max_chunk}

-- A Go `int` of 64 bits, read off its bit pattern.
unfoldable pub int64 : ℕ → ℤ
int64 n =
    let bits = n % 2 ^ 64 in if ltb bits (2 ^ 63) then pos bits else negsuc (2 ^ 64 - bits - 1)

-- (1 << retryCount) * 30, which wraps at 64 bits, capped at an hour.
unfoldable pub backoff_seconds : ℕ → ℤ
unfolding int64
backoff_seconds retry_count =
    let seconds = int64 (2 ^ retry_count * 30) in
    if ltbℤ (pos 3600) seconds then pos 3600 else seconds

-- now() + seconds. A time before the epoch is the epoch: no claim tells the two apart.
unfoldable pub seconds_from : ℕ → ℤ → ℕ
seconds_from now seconds = pos_part (pos now +ℤ seconds)

unfoldable pub retry_row : Task → RowId → ℕ → ℕ → ℕ → Task
retry_row t id chunk_index retry_count retry_after = record {
  id = id;
  job_id = t.job_id;
  chunk_index = chunk_index;
  task_type = t.task_type;
  status = TaskStatus.pending;
  agent_id = none;
  script_dir = "";
  source_path = t.source_path;
  output_path = t.output_path;
  variables = t.variables;
  exit_code = none;
  metrics = none;
  error_msg = none;
  retry_count = retry_count;
  retry_after = some retry_after;
  preempted_at = none;
  started_at = none;
  completed_at = none;
}

-- INSERT ... SELECT: the job is that of a row, so the reference to it holds.
abbrev pub insert_retry : Option Task → ℕ → ℕ → Db → Result Task × Db
insert_retry none retry_count retry_after db = (err Err.not_found, db)
insert_retry (some t) retry_count retry_after db =
    insert_row (retry_row t db.next_id (suc (max_chunk t.job_id db.tasks)) retry_count retry_after)
      db

unfoldable pub retry_task_with_backoff : RowId → ℕ → Stmt Task
unfolding retry_row seconds_from backoff_seconds
retry_task_with_backoff task_id retry_count now db =
    insert_retry (find_first (has_id task_id) db.tasks) (retry_count + 1)
      (seconds_from now (backoff_seconds retry_count)) db

-- Scan refuses a row that has fewer columns than it has destinations. The statement is done then.
abbrev pub short_row : Result Task × Db → Result Task × Db
short_row (r, db) = (elim r [ ok t ↦ err Err.scan_mismatch | err e ↦ err e ], db)

-- The RETURNING list lacks two of the columns that scanTask reads.
unfoldable pub retry_task_with_backoff_jitter : RowId → ℕ → ℕ → Stmt Task
unfolding retry_row seconds_from backoff_seconds
retry_task_with_backoff_jitter task_id retry_count jitter_sec now db = short_row (
    insert_retry (find_first (has_id task_id) db.tasks) (retry_count + 1)
      (seconds_from now (backoff_seconds retry_count +ℤ pos jitter_sec)) db)
