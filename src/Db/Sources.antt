-- ===== src/Db/Sources.antt =====
-- internal/db/queries.go: the queries on the table of sources, whose paths are unique.
use text.Mathlib.Text.{◌==◌ as str_eq}
use encodeswarmr.Prelude.{
  suc, ℤ, pos, String, Bool, [], ◌∷◌, ◌++◌, Option, none, some, ◌==◌, if◌then◌else◌, find_first,
  any_of, update_where,
}
use encodeswarmr.Db.Types.{RowId, Source, SourceState, Db}
use encodeswarmr.Exec.{Stmt, Result, ok, err, Err}
use encodeswarmr.Db.Tasks.{found}

pub record CreateSourceParams : Type 0 where
  pub filename : String
  pub unc_path : String
  pub size_bytes : ℤ
  pub detected_by : Option RowId
  pub cloud_uri : Option String

abbrev pub has_source_id : RowId → Source → Bool
has_source_id id s = s.id == id

abbrev pub has_path : String → Source → Bool
has_path path s = str_eq s.unc_path path

-- A row with the column defaults.
unfoldable pub new_source : CreateSourceParams → RowId → Source
new_source p id = record {
  id = id;
  filename = p.filename;
  unc_path = p.unc_path;
  size_bytes = p.size_bytes;
  detected_by = p.detected_by;
  state = SourceState.detected;
  vmaf_score = none;
  cloud_uri = p.cloud_uri;
  hdr_type = "";
  dv_profile = pos 0;
  thumbnails = [];
  watch_folder = none;
  category = "default";
}

-- unc_path is UNIQUE.
unfoldable pub create_source : CreateSourceParams → Stmt Source
unfolding new_source
create_source p now db =
    let s = new_source p db.next_id in
    if any_of (has_path p.unc_path) db.sources
    then (err Err.unique_violation, db)
    else (ok s, record db { sources = db.sources ++ s ∷ []; next_id = suc db.next_id })

unfoldable pub get_source_by_id : RowId → Stmt Source
get_source_by_id id now db = (found (find_first (has_source_id id) db.sources), db)

unfoldable pub get_source_by_unc_path : String → Stmt Source
get_source_by_unc_path path now db = (found (find_first (has_path path) db.sources), db)

unfoldable pub update_source_or_missing : RowId → (Source → Source) → Db → Result (Unit {0}) × Db
update_source_or_missing id f db =
    if any_of (has_source_id id) db.sources
    then (ok tt, record db { sources = update_where (has_source_id id) f db.sources })
    else (err Err.not_found, db)

unfoldable pub update_source_hdr : RowId → String → ℤ → Stmt (Unit {0})
unfolding update_source_or_missing
update_source_hdr id hdr_type dv_profile now =
    update_source_or_missing id (λ s. record s { hdr_type = hdr_type; dv_profile = dv_profile })

unfoldable pub update_source_state : RowId → SourceState → Stmt (Unit {0})
unfolding update_source_or_missing
update_source_state id state now = update_source_or_missing id (λ s. record s { state = state })

unfoldable pub update_source_watch : RowId → String → String → Stmt (Unit {0})
unfolding update_source_or_missing
update_source_watch id watch_folder category now =
    update_source_or_missing id
      (λ s. record s { watch_folder = some watch_folder; category = category })
