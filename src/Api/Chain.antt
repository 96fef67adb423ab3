-- ===== src/Api/Chain.antt =====
-- internal/controller/api/jobs.go, handleCreateJobChain: jobs of which each depends on the one
-- before it.
pub mod Blocked
use encodeswarmr.Prelude.{
  ℕ, ℤ, pos, String, Bool, true, not, ◌||◌, List, [], ◌∷◌, ◌++◌, Option, none, some, ◌==◌,
  if◌then◌else◌, length, any_of,
}
use encodeswarmr.Db.Types.{RowId, no_id, Job, JobType, EncodeConfig}
use encodeswarmr.Db.Jobs.{CreateJobParams, create_job}
use encodeswarmr.Exec.{Exec, Result, ok, err, pure, call, catch, ◌>>=◌, ◌>>◌, continue}
use encodeswarmr.Api.Jobs.{Reply, with_done, valid_job_type, valid_audio_config, audio_ok}

-- An absent configuration is the empty one.
pub record ChainStep : Type 0 where
  pub job_type : JobType
  pub priority : ℤ
  pub target_tags : List String
  pub encode_config : Option EncodeConfig
  pub audio_codec : Option String

abbrev pub empty_config : EncodeConfig
empty_config = record {
  run_script_template_id = no_id;
  chunk_boundaries = [];
  output_root = "";
  output_extension = "";
  extra_vars = [];
  chunking_config = none;
  flow_id = no_id;
}

abbrev pub config_of : Option EncodeConfig → EncodeConfig
config_of none = empty_config
config_of (some cfg) = cfg

abbrev pub step_params : RowId → RowId → Option RowId → ChainStep → CreateJobParams
step_params source_id chain_group prev step = record {
  source_id = source_id;
  job_type = step.job_type;
  priority = step.priority;
  target_tags = some step.target_tags;
  encode_config = config_of step.encode_config;
  max_retries = pos 0;
  depends_on = prev;
  chain_group = some chain_group;
}

abbrev pub bad_step : ChainStep → Bool
bad_step step = not (valid_job_type step.job_type) || not (audio_ok step.job_type step.audio_codec)

-- The loop, with the jobs created so far and the last one's identifier.
unfoldable pub create_steps : RowId → RowId → List Job → Option RowId → List ChainStep → Exec Reply
create_steps source_id chain_group created prev [] = pure (Reply.chain chain_group created)
create_steps source_id chain_group created prev (step ∷ steps) = do
  job ← catch (create_job (step_params source_id chain_group prev step))
  with_done job (λ j. create_steps source_id chain_group (created ++ j ∷ []) (some j.id) steps)

-- `chain_group` is the UUID that the handler makes up.
unfoldable pub handle_create_job_chain : RowId → RowId → List ChainStep → Exec Reply
unfolding create_steps valid_audio_config
handle_create_job_chain chain_group source_id steps =
    if source_id == no_id || length steps == 0 || any_of bad_step steps
    then pure Reply.unprocessable
    else create_steps source_id chain_group [] none steps
