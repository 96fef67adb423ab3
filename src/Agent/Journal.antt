-- ===== src/Agent/Journal.antt =====
-- internal/agent/service/offline.go and runner.go, syncResults: results that could not be reported
-- are kept in a local table, and replayed later. Reading that table is taken not to fail; which
-- calls of SaveResult and MarkSynced succeed is a parameter.
pub mod Replay
use encodeswarmr.Prelude.{
  ℕ, suc, ◌+◌, ℤ, String, Bool, true, false, not, ◌&&◌, List, [], ◌∷◌, ◌++◌, map, Option, none,
  some, ltb, ◌==◌, if◌then◌else◌, select, update_where, length, take,
}
use encodeswarmr.Db.Types.{RowId}
use encodeswarmr.Grpc.Server.{TaskResult}

pub record OfflineResult : Type 0 where
  pub id : ℕ
  pub task_id : RowId
  pub job_id : RowId
  pub success : Bool
  pub exit_code : ℤ
  pub error_msg : String
  pub created_at : ℕ
  pub synced : Bool

-- The table, and the next value of its AUTOINCREMENT key.
pub record OfflineStore : Type 0 where
  pub results : List OfflineResult
  pub next_id : ℕ

unfoldable pub save_result : ℕ → RowId → RowId → Bool → ℤ → String → OfflineStore → OfflineStore
save_result now task_id job_id success exit_code error_msg o = record {
  results =
      o.results
      ++ record {
        id = o.next_id;
        task_id = task_id;
        job_id = job_id;
        success = success;
        exit_code = exit_code;
        error_msg = error_msg;
        created_at = now;
        synced = false;
      }
        ∷ [];
  next_id = suc o.next_id;
}

abbrev pub is_pending : OfflineResult → Bool
is_pending r = not r.synced

-- Rows are in order of their key in the table.
unfoldable pub pending_results : OfflineStore → List OfflineResult
pending_results o = select is_pending o.results

abbrev pub to_synced : OfflineResult → OfflineResult
to_synced r = record r { synced = true }

unfoldable pub mark_synced : ℕ → OfflineStore → OfflineStore
mark_synced id o = record o { results = update_where (λ r. r.id == id) to_synced o.results }

-- Synced rows older than the cutoff are deleted.
abbrev pub is_stale : ℕ → OfflineResult → Bool
is_stale cutoff r = r.synced && ltb r.created_at cutoff

unfoldable pub prune_journal : ℕ → OfflineStore → OfflineStore
prune_journal cutoff o = record o { results = select (λ r. not (is_stale cutoff r)) o.results }

-- The message that a row is replayed as.
abbrev pub to_message : OfflineResult → TaskResult
to_message r = record {
  task_id = r.task_id;
  job_id = r.job_id;
  success = r.success;
  exit_code = r.exit_code;
  error_msg = r.error_msg;
  metrics = none;
  offline_result = true;
}

-- MarkSynced of a row, which succeeds or is only logged.
abbrev pub mark_one : Bool → ℕ → OfflineStore → OfflineStore
mark_one true id o = mark_synced id o
mark_one false id o = o

-- `marked` says of the identifier of a row whether the call for it succeeds.
unfoldable pub mark_all : (ℕ → Bool) → List OfflineResult → OfflineStore → OfflineStore
unfolding mark_synced
mark_all marked [] o = o
mark_all marked (r ∷ rs) o = mark_all marked rs (mark_one (marked r.id) r.id o)

abbrev pub after_reply : Bool → (ℕ → Bool) → List OfflineResult → OfflineStore → OfflineStore
after_reply true marked rs o = mark_all marked rs o
after_reply false marked rs o = o

-- syncResults: what is sent, for a stream that takes `sent` messages, and the table afterwards, for
-- a controller that replies or not. Marking is tried for all the results, sent or not.
unfoldable pub sync_results : ℕ → Bool → (ℕ → Bool) → OfflineStore → List TaskResult × OfflineStore
unfolding pending_results mark_all
sync_results sent replied marked o =
    let rs = pending_results o in
    if length rs == 0
    then ([], o)
    else (map to_message (take sent rs), after_reply replied marked rs o)
