-- ===== src/Grpc/Sync.antt =====
-- internal/controller/grpc/sync.go: an agent that was cut off replays the results it has kept. The
-- stream is the list of its messages.
pub mod Totals
use encodeswarmr.Prelude.{
  ℕ, suc, ◌+◌, Bool, true, false, not, ◌&&◌, ◌||◌, List, [], ◌∷◌, ◌++◌, if◌then◌else◌,
}
use encodeswarmr.Db.Types.{RowId, Task, TaskStatus, is_status}
use encodeswarmr.Db.Tasks.{get_task_by_id}
use encodeswarmr.Db.Jobs.{update_job_task_counts}
use encodeswarmr.Exec.{Exec, pure, call, or_internal, ◌>>=◌, ◌>>◌, continue}
use encodeswarmr.Grpc.Server.{Server, TaskResult}
use encodeswarmr.Grpc.Result.{process_result, check_job_completion}

pub record SyncResponse : Type 0 where
  pub accepted : ℕ
  pub rejected_task_ids : List RowId

-- A result is turned away if its task is finished and the result was not kept offline.
abbrev pub is_rejected : Task → TaskResult → Bool
is_rejected task r =
    (is_status task.status TaskStatus.completed || is_status task.status TaskStatus.failed)
    && not r.offline_result

unfoldable pub accept_result : Server → ℕ → TaskResult → Exec (Unit {0})
accept_result s jitter_sec r = do
  process_result s jitter_sec r
  or_internal (call (update_job_task_counts r.job_id))
  check_job_completion s r.job_id

-- The loop, with the two counters. Every message draws its own jitter.
unfoldable pub sync_loop :
    Server → (TaskResult → ℕ) → ℕ → List RowId → List TaskResult → Exec SyncResponse
sync_loop s jitter accepted rejected [] =
    pure (record { accepted = accepted; rejected_task_ids = rejected })
sync_loop s jitter accepted rejected (r ∷ rest) =
    let turned_away = sync_loop s jitter accepted (rejected ++ r.task_id ∷ []) rest in
    let taken = sync_loop s jitter (suc accepted) rejected rest in
    or_internal (call (get_task_by_id r.task_id)) >>= λ task.
    if is_rejected task r then turned_away else (do accept_result s (jitter r) r; taken)

unfoldable pub sync_offline_results :
    Server → (TaskResult → ℕ) → List TaskResult → Exec SyncResponse
unfolding sync_loop accept_result
sync_offline_results s jitter = sync_loop s jitter 0 []
