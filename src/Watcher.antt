-- ===== src/Watcher.antt =====
-- internal/controller/watcher/watcher.go: new files of a watched folder become sources, with jobs
-- for their analysis. The listing of a folder, path/filepath's Match and Join, are parameters. The
-- set of the paths seen is passed on as a list.
pub mod Keeps
pub mod Jobs
pub mod Again
use Prim.Native.String.{◌++◌ as append}
use text.Mathlib.Text.{◌==◌ as str_eq}
use encodeswarmr.Prelude.{
  ℕ, pos, String, Bool, true, false, ◌||◌, List, [], ◌∷◌, map, Option, none, some, any_of,
  if◌then◌else◌,
}
use encodeswarmr.Prelude.Text.{is_blank}
use encodeswarmr.Db.Types.{RowId, JobType, Source}
use encodeswarmr.Db.Jobs.{CreateJobParams, create_job}
use encodeswarmr.Db.Sources.{
  CreateSourceParams, create_source, get_source_by_unc_path, update_source_watch,
}
use encodeswarmr.Exec.{Exec, Result, ok, err, Err, pure, call, catch, ignore, ◌>>=◌, ◌>>◌}
use encodeswarmr.Api.Sources.{source_job}

pub record WatchFolder : Type 0 where
  pub name : String
  pub path : String
  pub windows_path : String
  pub file_patterns : List String
  pub auto_analyze : Bool
  pub move_after_analysis : String

-- `matches` is filepath.Match, with its error as false; `lower` is strings.ToLower.
pub record Files : Type 0 where
  pub matches : String → String → Bool
  pub lower : String → String
  pub join : String → String → String

abbrev pub default_file_patterns : List String
default_file_patterns = "*.mkv" ∷ "*.mp4" ∷ "*.ts" ∷ "*.avi" ∷ []

abbrev pub patterns_of : WatchFolder → List String
patterns_of f = elim f.file_patterns [ [] ↦ default_file_patterns | p ∷ ps ↦ p ∷ ps ]

unfoldable pub matches_any_pattern : Files → String → List String → Bool
matches_any_pattern fs name patterns =
    any_of (λ p. fs.matches p name || fs.matches (fs.lower p) (fs.lower name)) patterns

-- filepath.Rel of a file to its folder is the name of the file, which has no separator.
unfoldable pub to_unc_path : Files → WatchFolder → String → String
to_unc_path fs f name =
    if is_blank f.windows_path || is_blank f.path
    then fs.join f.path name
    else append f.windows_path (append "\\" name)

unfoldable pub schedule_analysis : RowId → Exec (Unit {0})
schedule_analysis id = do
  ignore (create_job (source_job id JobType.analysis (pos 0) (some [])))
  ignore (create_job (source_job id JobType.hdr_detect (pos 0) (some [])))

abbrev pub category_of : WatchFolder → String
category_of f = if is_blank f.move_after_analysis then "default" else f.move_after_analysis

-- What follows on the insert of the source; the paths seen.
abbrev pub on_created : WatchFolder → String → List String → Result Source → Exec (List String)
on_created f path seen (err e) w = (ok seen, w)
on_created f path seen (ok s) w =
    (do
      ignore (call (update_source_watch s.id f.name (category_of f)))
      if f.auto_analyze then schedule_analysis s.id else pure tt
      pure (path ∷ seen))
      w

unfoldable pub new_file : Files → WatchFolder → String → List String → Exec (List String)
unfolding schedule_analysis to_unc_path
new_file fs f name seen = do
  source ← catch (
      call (
        create_source (record {
          filename = name;
          unc_path = to_unc_path fs f name;
          size_bytes = pos 0;
          detected_by = none;
          cloud_uri = none;
        })))
  on_created f (fs.join f.path name) seen source

abbrev pub on_lookup :
    Files → WatchFolder → String → List String → Result Source → Exec (List String)
on_lookup fs f name seen (ok s) w = (ok (fs.join f.path name ∷ seen), w)
on_lookup fs f name seen (err Err.not_found) w = new_file fs f name seen w
on_lookup fs f name seen (err e) w = (ok seen, w)

unfoldable pub process_file : Files → WatchFolder → String → List String → Exec (List String)
unfolding new_file
process_file fs f name seen = do
  existing ← catch (call (get_source_by_unc_path (to_unc_path fs f name)))
  on_lookup fs f name seen existing

-- An entry of the listing is a name, and whether it is a directory.
abbrev pub skipped : Files → WatchFolder → List String → String × Bool → Bool
skipped fs f seen (name, is_dir) =
    if is_dir
    then true
    else if matches_any_pattern fs name (patterns_of f)
    then any_of (str_eq (fs.join f.path name)) seen
    else true

unfoldable pub scan_entries :
    Files → WatchFolder → List (String × Bool) → List String → Exec (List String)
unfolding process_file matches_any_pattern
scan_entries fs f [] seen = pure seen
scan_entries fs f (e ∷ es) seen =
    let processed = (do seen' ← process_file fs f e.0 seen; scan_entries fs f es seen') in
    let over = scan_entries fs f es seen in if skipped fs f seen e then over else processed

-- The listing fails with `none`.
unfoldable pub scan :
    Files → WatchFolder → Option (List (String × Bool)) → List String → Exec (List String)
unfolding scan_entries
scan fs f none seen = pure seen
scan fs f (some entries) seen = scan_entries fs f entries seen
