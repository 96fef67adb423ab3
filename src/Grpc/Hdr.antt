-- ===== src/Grpc/Hdr.antt =====
-- internal/controller/grpc/result.go, extractHDRResult: the log of an hdr_detect task is searched
-- page by page for the sentinel line.
use text.Mathlib.Text.{◌==◌ as str_eq}
use encodeswarmr.Prelude.{
  ℕ, zero, suc, ℤ, String, Bool, ◌&&◌, List, [], ◌∷◌, Option, none, some, ltb, ◌==◌, if◌then◌else◌,
  length, take, select, find_first,
}
use encodeswarmr.Prelude.Text.{codes, has_prefix, drop_chars}
use encodeswarmr.Db.Types.{RowId, Task, Job, TaskLog}
use encodeswarmr.Db.Tasks.{list_tasks_by_job}
use encodeswarmr.Db.Sources.{update_source_hdr}
use encodeswarmr.Exec.{Exec, Stmt, ok, pure, call, ◌>>=◌}
use encodeswarmr.Grpc.Server.{Server}

abbrev pub hdr_result_sentinel : String
hdr_result_sentinel = "ES_HDR_RESULT="

abbrev pub page_size : ℕ
page_size = 500

-- db/queries.go, ListTaskLogs, with a page size in range. Log rows are in order of time, and of
-- their identifier, in the table.
unfoldable pub list_task_logs : RowId → String → ℕ → ℕ → Stmt (List TaskLog)
list_task_logs task_id stream cursor size now db = (
  ok (
      take size
        (select (λ l. l.task_id == task_id && str_eq l.stream stream && ltb cursor l.id) db.logs)),
  db,
)

-- strings.HasPrefix(l.Message, HDRResultSentinel)
unfoldable pub is_sentinel : TaskLog → Bool
unfolding has_prefix
is_sentinel l = has_prefix (codes hdr_result_sentinel) (codes l.message)

abbrev pub store_hdr : RowId → Option (String × ℤ) → Exec (Unit {0})
store_hdr source_id none = pure tt
store_hdr source_id (some (hdr_type, dv_profile)) =
    call (update_source_hdr source_id hdr_type dv_profile)

abbrev pub last_id : ℕ → List TaskLog → ℕ
last_id cursor [] = cursor
last_id cursor (l ∷ ls) = last_id l.id ls

abbrev pub on_page : Server → Job → List TaskLog → Exec (Unit {0}) → Exec (Unit {0})
on_page s job logs more = elim (find_first is_sentinel logs) [
  | some l ↦
      store_hdr job.source_id
        (s.unmarshal_hdr (drop_chars (length (codes hdr_result_sentinel)) l.message))
  | none ↦ if ltb (length logs) page_size then pure tt else more
]

-- The loop over the pages; each full page has new rows, so the number of rows is fuel enough.
unfoldable pub scan_pages : Server → Job → RowId → ℕ → ℕ → Exec (Unit {0})
scan_pages s job task_id zero cursor = pure tt
scan_pages s job task_id (suc fuel) cursor = do
  logs ← call (list_task_logs task_id "stdout" cursor page_size)
  on_page s job logs (scan_pages s job task_id fuel (last_id cursor logs))

abbrev pub extract_from : Server → Job → List Task → Exec (Unit {0})
extract_from s job [] w = (ok tt, w)
extract_from s job (task ∷ rest) w = scan_pages s job task.id (suc (length w.db.logs)) 0 w

unfoldable pub extract_hdr_result : Server → Job → Exec (Unit {0})
extract_hdr_result s job = do tasks ← call (list_tasks_by_job job.id); extract_from s job tasks
