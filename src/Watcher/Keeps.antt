-- ===== src/Watcher/Keeps.antt =====
-- Invariants of the tables through a scan of a watched folder.
use encodeswarmr.Prelude.{pos, String, Bool, List, [], ◌∷◌, Option, none, some}
use encodeswarmr.Db.Types.{RowId, JobType, Source, Db}
use encodeswarmr.Db.Jobs.{create_job}
use encodeswarmr.Db.Sources.{
  CreateSourceParams, create_source, get_source_by_unc_path, update_source_watch,
}
use encodeswarmr.Exec.{Result, ok, err, Err}
use encodeswarmr.Exec.Keeps.{StmtKeeps, Keeps, Keeps-pure, Keeps-if, Keeps-bind, keeps_rules}
use encodeswarmr.Api.Sources.{source_job}
use encodeswarmr.Watcher.{
  Files, WatchFolder, schedule_analysis, on_created, new_file, on_lookup, process_file,
  scan_entries, scan,
}

-- An invariant that the statements of a scan keep.
module _ {P : Db → Type 0}
    (analysis : (id : RowId)
      → Keeps P (create_job (source_job id JobType.analysis (pos 0) (some []))))
    (hdr_detect : (id : RowId)
      → Keeps P (create_job (source_job id JobType.hdr_detect (pos 0) (some []))))
    (create : (p : CreateSourceParams) → StmtKeeps P (create_source p))
    (lookup : (p : String) → StmtKeeps P (get_source_by_unc_path p))
    (watch : (id : RowId) (name category : String)
      → StmtKeeps P (update_source_watch id name category))
    (fs : Files) (f : WatchFolder) where
  schedule_analysis-Keeps : (id : RowId) → Keeps P (schedule_analysis id)
  unfolding schedule_analysis
  schedule_analysis-Keeps id = search (keeps_rules, analysis, hdr_detect) depth 10

  on_created-Keeps :
      (path : String) (seen : List String) (r : Result Source) → Keeps P (on_created f path seen r)
  on_created-Keeps path seen (err e) = record { at = λ w h. h }
  on_created-Keeps path seen (ok s) = search (keeps_rules, watch, schedule_analysis-Keeps) depth 12

  new_file-Keeps : (name : String) (seen : List String) → Keeps P (new_file fs f name seen)
  unfolding new_file
  new_file-Keeps name seen = search (keeps_rules, create, on_created-Keeps) depth 10

  on_lookup-Keeps :
      (name : String) (seen : List String) (r : Result Source)
      → Keeps P (on_lookup fs f name seen r)
  on_lookup-Keeps name seen (ok s) = record { at = λ w h. h }
  on_lookup-Keeps name seen (err Err.not_found) = record {
    at = λ w h. (new_file-Keeps name seen).at w h;
  }
  on_lookup-Keeps name seen (err e) = record { at = λ w h. h }

  process_file-Keeps : (name : String) (seen : List String) → Keeps P (process_file fs f name seen)
  unfolding process_file
  process_file-Keeps name seen = search (keeps_rules, lookup, on_lookup-Keeps) depth 10

  scan_entries-Keeps :
      (es : List (String × Bool)) (seen : List String) → Keeps P (scan_entries fs f es seen)
  unfolding scan_entries
  scan_entries-Keeps [] seen = Keeps-pure seen
  scan_entries-Keeps (e ∷ es) seen =
      Keeps-if _ _ _ (scan_entries-Keeps es seen)
        (Keeps-bind _ _ (process_file-Keeps e.0 seen) (λ s. scan_entries-Keeps es s))

  pub scan-Keeps :
      (entries : Option (List (String × Bool))) (seen : List String)
      → Keeps P (scan fs f entries seen)
  unfolding scan
  scan-Keeps none seen = Keeps-pure seen
  scan-Keeps (some es) seen = scan_entries-Keeps es seen
