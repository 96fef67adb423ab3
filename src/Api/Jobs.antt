-- ===== src/Api/Jobs.antt =====
-- internal/controller/api/jobs.go: the handlers that change jobs and tasks. A request body that is
-- not JSON, and the check of a user's rights, come before these functions.
pub mod Cancel
use text.Mathlib.Text.{◌==◌ as str_eq}
use encodeswarmr.Prelude.{
  ℕ, zero, suc, ◌-◌, ℤ, pos, ltbℤ, String, Bool, true, false, not, ◌&&◌, ◌||◌, List, [], ◌∷◌, ◌++◌,
  Option, none, some, ltb, ◌==◌, if◌then◌else◌, length, any_of,
}
use encodeswarmr.Db.Types.{
  RowId, no_id, Job, JobStatus, JobType, EncodeConfig, ChunkBoundary, Source, is_job_status,
}
use encodeswarmr.Db.Tasks.{cancel_pending_tasks_for_job, retry_failed_tasks_for_job, preempt_task}
use encodeswarmr.Db.Jobs.{
  CreateJobParams, create_job, get_job_by_id, update_job_status, update_job_priority,
}
use encodeswarmr.Exec.{
  Exec, Result, ok, err, Err, Event, pure, call, catch, emit, ◌>>=◌, ◌>>◌, continue,
}

-- The status of the answer, with the body where it tells something.
pub data Reply : Type 0 where
  bad_request unprocessable missing conflict server_error done : Reply
  created : Job → Reply
  source_made source_known : Source → Reply
  chain : RowId → List Job → Reply

-- Go on with a job that was looked up, or answer 404 or 500.
abbrev pub with_found {ℓ} : {A : Type ℓ} → Result A → (A → Exec Reply) → Exec Reply
with_found (ok a) k w = k a w
with_found (err Err.not_found) k w = (ok Reply.missing, w)
with_found (err e) k w = (ok Reply.server_error, w)

-- Go on after a statement, or answer 500.
abbrev pub with_done {ℓ} : {A : Type ℓ} → Result A → (A → Exec Reply) → Exec Reply
with_done (ok a) k w = k a w
with_done (err e) k w = (ok Reply.server_error, w)

abbrev pub valid_job_type : JobType → Bool
valid_job_type JobType.unknown = false
valid_job_type _ = true

abbrev pub valid_audio_codecs : List String
valid_audio_codecs =
    "flac" ∷ "libopus" ∷ "libfdk_aac" ∷ "aac" ∷ "ac3" ∷ "eac3" ∷ "dca" ∷ "truehd" ∷ "pcm_s16le"
    ∷ "pcm_s24le" ∷ "libmp3lame" ∷ "libvorbis" ∷ []

-- validateAudioConfig; no codec of the table is the empty text.
unfoldable pub valid_audio_config : String → Bool
valid_audio_config codec = any_of (str_eq codec) valid_audio_codecs

abbrev pub audio_ok : JobType → Option String → Bool
audio_ok JobType.audio (some codec) = valid_audio_config codec
audio_ok _ _ = true

-- The request of POST /jobs. Tags that it leaves out are nil. Of the audio configuration, only its
-- codec matters here.
pub record CreateJobRequest : Type 0 where
  pub source_id : RowId
  pub job_type : JobType
  pub priority : ℤ
  pub target_tags : Option (List String)
  pub encode_config : EncodeConfig
  pub audio_codec : Option String
  pub flow_id : RowId
  pub depends_on : Option RowId
  pub chain_group : Option RowId

abbrev pub is_encode : JobType → Bool
is_encode JobType.encode = true
is_encode _ = false

abbrev pub lacks_chunks : CreateJobRequest → Bool
lacks_chunks req =
    req.flow_id == no_id
    && is_encode req.job_type
    && (req.encode_config.run_script_template_id == no_id
        || length req.encode_config.chunk_boundaries == 0)

abbrev pub with_flow : RowId → EncodeConfig → EncodeConfig
with_flow flow_id cfg = if flow_id == no_id then cfg else record cfg { flow_id = flow_id }

-- The number of retries is not passed on, so it is 0.
abbrev pub job_params : CreateJobRequest → CreateJobParams
job_params req = record {
  source_id = req.source_id;
  job_type = req.job_type;
  priority = req.priority;
  target_tags = req.target_tags;
  encode_config = with_flow req.flow_id req.encode_config;
  max_retries = pos 0;
  depends_on = req.depends_on;
  chain_group = req.chain_group;
}

unfoldable pub handle_create_job : CreateJobRequest → Exec Reply
unfolding valid_audio_config
handle_create_job req =
    if req.source_id == no_id
      || not (valid_job_type req.job_type)
      || not (audio_ok req.job_type req.audio_codec)
      || lacks_chunks req
    then pure Reply.unprocessable
    else (do job ← catch (create_job (job_params req)); with_done job (λ j. pure (Reply.created j)))

abbrev pub cannot_cancel : Job → Bool
cannot_cancel job =
    is_job_status job.status JobStatus.cancelled || is_job_status job.status JobStatus.completed

unfoldable pub cancel_found : RowId → Job → Exec Reply
cancel_found id job = if cannot_cancel job then pure Reply.unprocessable else (do
  updated ← catch (call (update_job_status id JobStatus.cancelled))
  with_done updated (λ _. do
    cancelled ← catch (call (cancel_pending_tasks_for_job id))
    with_done cancelled
        (λ _. do emit (Event.job_event JobStatus.cancelled id 0 0); pure Reply.done)))

unfoldable pub handle_cancel_job : RowId → Exec Reply
unfolding cancel_found
handle_cancel_job id =
    if id == no_id
    then pure Reply.bad_request
    else (do job ← catch (call (get_job_by_id id)); with_found job (cancel_found id))

unfoldable pub retry_found : RowId → Job → Exec Reply
retry_found id job =
    if not (is_job_status job.status JobStatus.failed) then pure Reply.unprocessable else (do
      retried ← catch (call (retry_failed_tasks_for_job id))
      with_done retried (λ _. do
        updated ← catch (call (update_job_status id JobStatus.queued))
        with_done updated (λ _. pure Reply.done)))

unfoldable pub handle_retry_job : RowId → Exec Reply
unfolding retry_found
handle_retry_job id =
    if id == no_id
    then pure Reply.bad_request
    else (do job ← catch (call (get_job_by_id id)); with_found job (retry_found id))

unfoldable pub handle_update_job_priority : RowId → ℤ → Exec Reply
handle_update_job_priority id priority =
    if id == no_id
    then pure Reply.bad_request
    else if ltbℤ priority (pos 0) || ltbℤ (pos 100) priority
    then pure Reply.unprocessable
    else (do
      job ← catch (call (get_job_by_id id))
      with_found job (λ _. do
        updated ← catch (call (update_job_priority id priority))
        with_done updated (λ _. pure Reply.done)))

-- The loop over the identifiers: the first gets the highest priority, which is at most 100.
abbrev pub rank : ℕ → ℕ
rank left = if ltb 100 left then 100 else left

abbrev pub after_reorder : Result (Unit {0}) → Exec Reply → Exec Reply
after_reorder (ok _) more = more
after_reorder (err Err.not_found) more = more
after_reorder (err e) more = pure Reply.server_error

unfoldable pub reorder_from : List RowId → Exec Reply
reorder_from [] = pure Reply.done
reorder_from (id ∷ ids) = do
  updated ← catch (call (update_job_priority id (pos (rank (length (id ∷ ids))))))
  after_reorder updated (reorder_from ids)

unfoldable pub handle_reorder_jobs : List RowId → Exec Reply
unfolding reorder_from
handle_reorder_jobs ids = if length ids == 0 then pure Reply.unprocessable else reorder_from ids

unfoldable pub handle_preempt_task : RowId → Exec Reply
handle_preempt_task id = if id == no_id then pure Reply.bad_request else (do
  preempted ← catch (call (preempt_task id))
  with_found preempted (λ _. pure Reply.done))
