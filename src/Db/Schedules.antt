-- ===== src/Db/Schedules.antt =====
-- internal/db/queries.go: the queries of the scheduler on the table of schedules.
use encodeswarmr.Prelude.{
  ℕ, Bool, false, ◌&&◌, List, [], ◌∷◌, Option, none, some, leb, ◌==◌, if◌then◌else◌, select, any_of,
  update_where,
}
use encodeswarmr.Db.Types.{RowId, Schedule}
use encodeswarmr.Exec.{Stmt, ok, err, Err}

abbrev pub has_schedule_id : RowId → Schedule → Bool
has_schedule_id id s = s.id == id

-- next_run_at <= now(); it is not true of NULL.
abbrev pub is_past : ℕ → Option ℕ → Bool
is_past now none = false
is_past now (some t) = leb t now

unfoldable pub is_due : ℕ → Schedule → Bool
is_due now s = s.enabled && is_past now s.next_run_at

abbrev pub run_time : Schedule → ℕ
run_time s = elim s.next_run_at [ none ↦ 0 | some t ↦ t ]

-- ORDER BY next_run_at ASC
unfoldable pub insert_by_time : Schedule → List Schedule → List Schedule
insert_by_time s [] = s ∷ []
insert_by_time s (t ∷ ts) =
    let later = t ∷ insert_by_time s ts in
    if leb (run_time s) (run_time t) then s ∷ t ∷ ts else later

unfoldable pub sort_by_time : List Schedule → List Schedule
unfolding insert_by_time
sort_by_time [] = []
sort_by_time (s ∷ ss) = insert_by_time s (sort_by_time ss)

unfoldable pub list_due_schedules : Stmt (List Schedule)
unfolding is_due sort_by_time
list_due_schedules now db = (ok (sort_by_time (select (is_due now) db.schedules)), db)

abbrev pub with_run : ℕ → Option ℕ → Schedule → Schedule
with_run last_run_at next_run_at s = record s {
  last_run_at = some last_run_at;
  next_run_at = next_run_at;
}

unfoldable pub mark_schedule_run : RowId → ℕ → Option ℕ → Stmt (Unit {0})
mark_schedule_run id last_run_at next_run_at now db =
    if any_of (has_schedule_id id) db.schedules
    then (
      ok tt,
      record db {
        schedules =
            update_where (has_schedule_id id) (with_run last_run_at next_run_at) db.schedules;
      },
    )
    else (err Err.not_found, db)
