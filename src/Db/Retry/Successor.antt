-- ===== src/Db/Retry/Successor.antt =====
-- What RetryTaskWithBackoffJitter inserts.
use encodeswarmr.Prelude.{
  ℕ, suc, ◌+◌, ◌≤◌, ◌≡◌, refl, false, List, [], ◌∷◌, ◌++◌, some, arith, any_of, find_first, pos,
  ◌+ℤ◌,
}
use encodeswarmr.Db.Types.{RowId, Task, Db}
use encodeswarmr.Exec.{Err, err}
use encodeswarmr.Db.Tasks.{has_id, same_slot, insert_row, max_chunk}
use encodeswarmr.Db.Retry.{retry_row, seconds_from, backoff_seconds, retry_task_with_backoff_jitter}

slot_free :
    (id : RowId) (n : ℕ) (u : Task) (ts : List Task)
    → u.job_id ≡ id
    → u.chunk_index ≡ suc n
    → max_chunk id ts ≤ n
    → any_of (same_slot u) ts ≡ false
unfolding any_of max_chunk
slot_free id n u [] e f h = refl
slot_free id n u (t ∷ ts) e f h = ground (arith, slot_free id n u ts e f)

pub retry_task_with_backoff_jitter-inserts :
    (id : RowId) (retry_count jitter now : ℕ) (db : Db) (t : Task)
    → find_first (has_id id) db.tasks ≡ some t
    → let row =
        retry_row t db.next_id
          (suc (max_chunk t.job_id db.tasks))
          (retry_count + 1)
          (seconds_from now (backoff_seconds retry_count +ℤ pos jitter)) in
      retry_task_with_backoff_jitter id retry_count jitter now db ≡ (
        err Err.scan_mismatch,
        record db { tasks = db.tasks ++ row ∷ []; next_id = suc db.next_id },
      )
unfolding retry_task_with_backoff_jitter insert_row retry_row
retry_task_with_backoff_jitter-inserts id retry_count jitter now db t h =
    rw
      (
        h,
        slot_free t.job_id (max_chunk t.job_id db.tasks)
            (retry_row t db.next_id (suc (max_chunk t.job_id db.tasks)) (retry_count + 1)
              (seconds_from now (backoff_seconds retry_count +ℤ pos jitter)))
            db.tasks refl refl (omega arith),
      )
      refl
