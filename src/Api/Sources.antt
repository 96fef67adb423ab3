-- ===== src/Api/Sources.antt =====
-- internal/controller/api/sources.go: the handlers that create sources and their jobs.
pub mod Cloud
use text.Mathlib.Text.{◌==◌ as str_eq}
use encodeswarmr.Prelude.{
  ℕ, ℤ, pos, ltbℤ, String, Bool, true, false, not, ◌&&◌, ◌||◌, List, [], ◌∷◌, map, Option, none,
  some, ltb, ◌==◌, if◌then◌else◌, length, any_of,
}
use encodeswarmr.Prelude.Text.{codes, has_prefix, to_lower, is_blank, base_name}
use encodeswarmr.Db.Types.{RowId, Job, JobType, EncodeConfig, Source}
use encodeswarmr.Db.Jobs.{CreateJobParams, create_job}
use encodeswarmr.Db.Sources.{
  CreateSourceParams, create_source, get_source_by_id, get_source_by_unc_path, update_source_hdr,
}
use encodeswarmr.Exec.{Exec, Result, ok, err, Err, pure, call, catch, ignore, ◌>>=◌, ◌>>◌}
use encodeswarmr.Api.Jobs.{Reply, with_found, with_done}

-- db.EncodeConfig{}
abbrev pub no_config : EncodeConfig
no_config = record {
  run_script_template_id = 0;
  chunk_boundaries = [];
  output_root = "";
  output_extension = "";
  extra_vars = [];
  chunking_config = none;
  flow_id = 0;
}

-- The fields that the handlers below leave out are zero.
abbrev pub source_job : RowId → JobType → ℤ → Option (List String) → CreateJobParams
source_job source_id ty priority tags = record {
  source_id = source_id;
  job_type = ty;
  priority = priority;
  target_tags = tags;
  encode_config = no_config;
  max_retries = pos 0;
  depends_on = none;
  chain_group = none;
}

unfoldable pub schedule_source_analysis : RowId → Exec (Unit {0})
schedule_source_analysis id = do
  ignore (create_job (source_job id JobType.analysis (pos 0) (some [])))
  ignore (create_job (source_job id JobType.hdr_detect (pos 0) (some [])))

-- shared.IsSharePath
unfoldable pub is_share_path : String → Bool
unfolding has_prefix
is_share_path path = has_prefix (codes "\\\\") (codes path) || has_prefix (codes "/") (codes path)

abbrev pub schemes : List String
schemes = "s3://" ∷ "gs://" ∷ "az://" ∷ []

-- validateCloudURI: the scheme, and something behind it.
unfoldable pub valid_cloud_uri : String → Bool
unfolding has_prefix to_lower
valid_cloud_uri uri =
    any_of (λ s. has_prefix (codes s) (map to_lower (codes uri))) schemes
    && ltb (length (codes "s3://")) (length (codes uri))

pub record CreateSourceRequest : Type 0 where
  pub path : String
  pub name : String
  pub cloud_uri : Option String

abbrev pub text_of : Option String → String
text_of none = ""
text_of (some s) = s

abbrev pub refused_source : CreateSourceRequest → Bool
refused_source req =
    let has_cloud = not (is_blank (text_of req.cloud_uri)) in
    let has_path = not (is_blank req.path) in
    not has_cloud && not has_path
    || has_cloud && has_path
    || has_path && not (is_share_path req.path)
    || has_cloud && not (valid_cloud_uri (text_of req.cloud_uri))

abbrev pub source_params : CreateSourceRequest → CreateSourceParams
source_params req = record {
  filename =
      if not (is_blank req.name)
      then req.name
      else base_name (if is_blank req.path then text_of req.cloud_uri else req.path);
  unc_path = req.path;
  size_bytes = pos 0;
  detected_by = none;
  cloud_uri = req.cloud_uri;
}

unfoldable pub insert_source : CreateSourceRequest → Exec Reply
unfolding schedule_source_analysis
insert_source req = do
  source ← catch (call (create_source (source_params req)))
  with_done source (λ s. do schedule_source_analysis s.id; pure (Reply.source_made s))

-- The answer of the search by path: a known source, none, or an error.
abbrev pub unless_known : Result Source → Exec Reply → Exec Reply
unless_known (ok s) k w = (ok (Reply.source_known s), w)
unless_known (err Err.not_found) k w = k w
unless_known (err e) k w = (ok Reply.server_error, w)

unfoldable pub handle_create_source : CreateSourceRequest → Exec Reply
unfolding is_share_path valid_cloud_uri base_name insert_source
handle_create_source req =
    if refused_source req
    then pure Reply.bad_request
    else if is_blank req.path
    then insert_source req
    else (do
      existing ← catch (call (get_source_by_unc_path req.path))
      unless_known existing (insert_source req))

-- A job for a source that is looked up first.
unfoldable pub job_for : RowId → JobType → ℤ → Option (List String) → Exec Reply
job_for id ty priority tags = do
  source ← catch (call (get_source_by_id id))
  with_found source (λ _. do
    job ← catch (create_job (source_job id ty priority tags))
    with_done job (λ j. pure (Reply.created j)))

-- The parameters of the job have no tags: a nil slice.
unfoldable pub handle_analyze_source : RowId → Exec Reply
unfolding job_for
handle_analyze_source id = job_for id JobType.analysis (pos 0) none

unfoldable pub handle_hdr_detect_source : RowId → Exec Reply
unfolding job_for
handle_hdr_detect_source id = job_for id JobType.hdr_detect (pos 0) none

-- The body of the request, with `none` for tags that it leaves out.
unfoldable pub handle_encode_source : RowId → JobType → ℤ → Option (List String) → Exec Reply
unfolding job_for
handle_encode_source id ty priority tags = job_for id ty priority tags

abbrev pub valid_hdr_types : List String
valid_hdr_types = "" ∷ "hdr10" ∷ "hdr10+" ∷ "dolby_vision" ∷ "hlg" ∷ []

unfoldable pub handle_update_source_hdr : RowId → String → ℤ → Exec Reply
handle_update_source_hdr id hdr_type dv_profile =
    if not (any_of (str_eq hdr_type) valid_hdr_types) || ltbℤ dv_profile (pos 0)
    then pure Reply.bad_request
    else (do
      updated ← catch (call (update_source_hdr id hdr_type dv_profile))
      with_found updated (λ _. do
        source ← catch (call (get_source_by_id id))
        with_done source (λ s. pure (Reply.source_known s))))
