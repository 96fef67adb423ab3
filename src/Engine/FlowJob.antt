-- ===== src/Engine/FlowJob.antt =====
-- internal/controller/engine/expand.go, expandFlowJob: the steps of a flow become tasks.
pub mod Valid
use text.Mathlib.Text.{◌==◌ as str_eq}
use encodeswarmr.Prelude.{
  ℕ, suc, String, Bool, true, false, ◌||◌, List, [], ◌∷◌, Option, none, some, ◌==◌, if◌then◌else◌,
  length,
}
use encodeswarmr.Prelude.Text.{is_blank, drop_chars, join}
use encodeswarmr.Db.Types.{RowId, Job, JobStatus, TaskType, Source, Variables}
use encodeswarmr.Db.Tasks.{CreateTaskParams, create_task, found}
use encodeswarmr.Db.Sources.{get_source_by_id}
use encodeswarmr.Exec.{
  Exec, Stmt, Event, Result, ok, err, pure, raise, call, catch, ignore, or_fail, outside, emit,
  ◌>>=◌, ◌>>◌,
}
use encodeswarmr.Engine.Float.{Float}
use encodeswarmr.Engine.Json.{Json, Config, get, as_text, as_flag}
use encodeswarmr.Engine.Condition.{Reals}
use encodeswarmr.Engine.Flow.{FlowGraph}
use encodeswarmr.Engine.Walk.{TaskStep, Walk, Walked, execute_flow}
use encodeswarmr.Engine.Expand.{
  Engine, set_var, task_params, fail_job, mark_failed, finish_expansion,
}

-- The tables of flows (with the graph decoded, or `none` if it is not JSON), of analysis results
-- (the first summary of a source) and of templates (content and name), and whether there is a
-- sender of webhooks.
pub record Flows : Type 0 where
  pub flow_of : RowId → Option (Option FlowGraph)
  pub summary_of : RowId → Config
  pub template_of : String → Option (String × String)
  pub has_webhooks : Bool

pub data StepKind : Type 0 where
  webhook template_run condition vmaf_target : StepKind
  audio : String → StepKind
  twopass : Bool → StepKind
  subtitle_extract subtitle_convert subtitle_embed subtitle_burn other_step : StepKind

unfoldable pub kind_of : String → StepKind
kind_of ty =
    if str_eq ty "notify_webhook" || str_eq ty "webhook"
    then StepKind.webhook
    else if str_eq ty "template_run"
    then StepKind.template_run
    else if str_eq ty "audio_flac"
    then StepKind.audio "-vn -c:a flac"
    else if str_eq ty "audio_opus"
    then StepKind.audio "-vn -c:a libopus -b:a 128k"
    else if str_eq ty "audio_aac"
    then StepKind.audio "-vn -c:a aac -b:a 192k -profile:a aac_low"
    else if str_eq ty "condition"
    then StepKind.condition
    else if str_eq ty "encode_twopass"
    then StepKind.twopass false
    else if str_eq ty "encode_twopass_x264"
    then StepKind.twopass true
    else if str_eq ty "encode_vmaf_target"
    then StepKind.vmaf_target
    else if str_eq ty "subtitle_extract"
    then StepKind.subtitle_extract
    else if str_eq ty "subtitle_convert"
    then StepKind.subtitle_convert
    else if str_eq ty "subtitle_embed"
    then StepKind.subtitle_embed
    else if str_eq ty "subtitle_burn"
    then StepKind.subtitle_burn
    else StepKind.other_step

-- The entries of a configuration that are texts.
unfoldable pub text_vars : Config → Variables → Variables
unfolding set_var
text_vars [] vars = vars
text_vars ((k, Json.str s) ∷ rest) vars = text_vars rest (set_var k s vars)
text_vars ((k, v) ∷ rest) vars = text_vars rest vars

abbrev pub var_or_empty : String → Variables → String
var_or_empty key [] = ""
var_or_empty key (kv ∷ rest) =
    let more = var_or_empty key rest in if str_eq kv.0 key then kv.1 else more

-- %d of the track index, which is 0 unless it is a number.
abbrev pub track_index : Option Json → String
track_index (some (Json.number zero v d)) = d
track_index _ = "0"

-- %g of the font size.
abbrev pub font_size : Option Json → String
font_size (some (Json.number zero v d)) = v
font_size _ = "0"

abbrev pub or_default : String → String → String
or_default s d = if is_blank s then d else s

-- What a kind adds to the variables of its one task.
unfoldable pub kind_vars : StepKind → TaskStep → Variables → Variables
unfolding set_var get drop_chars
kind_vars (StepKind.audio args) t vars =
    set_var "ffmpeg_audio_codec" (drop_chars 6 t.node_type) (set_var "audio_ffmpeg_args" args vars)
kind_vars StepKind.subtitle_extract t vars = set_var "subtitle_op" "extract" (
    set_var "subtitle_format" (or_default (as_text (get "format" t.config)) "srt")
      (set_var "subtitle_track_index" (track_index (get "track_index" t.config)) vars))
kind_vars StepKind.subtitle_convert t vars = set_var "subtitle_op" "convert" (
    set_var "subtitle_output_format" (as_text (get "output_format" t.config))
      (set_var "subtitle_input_format" (as_text (get "input_format" t.config)) vars))
kind_vars StepKind.subtitle_embed t vars = set_var "subtitle_op" "embed" (
    set_var "subtitle_default_track"
      (if as_flag (get "default_track" t.config) then "true" else "false")
      (set_var "subtitle_language" (as_text (get "language" t.config))
        (set_var "subtitle_path" (as_text (get "subtitle_path" t.config)) vars)))
kind_vars StepKind.subtitle_burn t vars = set_var "subtitle_op" "burn" (
    set_var "subtitle_position" (as_text (get "position" t.config)) (
      set_var "subtitle_font_size" (font_size (get "font_size" t.config))
        (set_var "subtitle_path" (as_text (get "subtitle_path" t.config)) vars)))
kind_vars _ t vars = vars

-- The variables of one of the two passes.
unfoldable pub pass_vars : String → Bool → String → Variables → Variables
unfolding set_var
pass_vars pass x264 stats vars =
    let codec = if x264 then "x264" else var_or_empty "codec" vars in
    set_var "twopass_bitrate" (var_or_empty "bitrate" vars) (
      set_var "twopass_stats_file" stats (
        set_var "twopass_lib_codec" (if str_eq codec "x264" then "libx264" else "libx265")
          (set_var "twopass_pass" pass vars)))

abbrev pub with_template : Result (String × String) → Variables → Variables
with_template (ok (content, name)) vars =
    set_var "template_name" name (set_var "script_content" content vars)
with_template (err e) vars = vars

module _ (fl : Float) (rs : Reals) (fs : Flows) (e : Engine fl) where
  abbrev pub get_template : String → Stmt (String × String)
  get_template id now db = (found (fs.template_of id), db)

  -- A template without an identifier is not looked up.
  unfoldable pub template_vars : TaskStep → Variables → Exec Variables
  unfolding get set_var
  template_vars t vars =
      let id = as_text (get "template_id" t.config) in
      if is_blank id
      then pure vars
      else (do r ← catch (call (get_template id)); pure (with_template r vars))

  abbrev pub event_type : TaskStep → String
  event_type t = or_default (as_text (get "event_type" t.config)) "flow.notify"

  unfoldable pub notify : Job → Source → TaskStep → Exec (Unit {0})
  unfolding get
  notify job source t =
      if fs.has_webhooks
      then emit (
          Event.flow_event (event_type t) job.id job.source_id job.encode_config.flow_id t.node_id
            source.unc_path t.config)
      else pure tt

  -- One task, at a place of the job; the place behind it.
  unfoldable pub add_task : Job → Source → ℕ → TaskType → Variables → Exec ℕ
  unfolding fail_job
  add_task job source index ty vars = do
    task ← or_fail (call (create_task (task_params job source index ty "" vars))) (fail_job job.id)
    pure (suc index)

  abbrev pub stats_file : Job → String
  stats_file job = join (
      job.encode_config.output_root
      ∷ "/"
      ∷ e.uuid_text job.id
      ∷ "/"
      ∷ e.uuid_text job.id
      ∷ "_pass1_stats"
      ∷ [])

  unfoldable pub step_vars : TaskStep → Variables
  unfolding text_vars
  step_vars t =
      set_var "flow_node_type" t.node_type
        (set_var "flow_node_id" (e.uuid_text t.node_id) (text_vars t.config []))

  -- The tasks of a step. A condition has been decided by the walk, and makes none.
  unfoldable pub expand_kind : Job → Source → ℕ → TaskStep → StepKind → Exec ℕ
  unfolding add_task step_vars kind_vars pass_vars template_vars notify join
  expand_kind job source index t StepKind.webhook = do notify job source t; pure index
  expand_kind job source index t StepKind.condition = pure index
  expand_kind job source index t (StepKind.twopass x264) = do
    next ←
        add_task job source index TaskType.twopass_pass1
          (pass_vars "1" x264 (stats_file job) (step_vars t))
    add_task job source next TaskType.twopass_pass2
        (pass_vars "2" x264 (stats_file job) (step_vars t))
  expand_kind job source index t StepKind.vmaf_target =
      add_task job source index TaskType.vmaf_target (step_vars t)
  expand_kind job source index t StepKind.template_run = do
    vars ← template_vars t (step_vars t)
    add_task job source index TaskType.encode vars
  expand_kind job source index t kind =
      add_task job source index TaskType.encode (kind_vars kind t (step_vars t))

  unfoldable pub expand_steps : Job → Source → ℕ → List TaskStep → Exec (Unit {0})
  unfolding expand_kind kind_of
  expand_steps job source index [] = pure tt
  expand_steps job source index (t ∷ ts) = do
    next ← expand_kind job source index t (kind_of t.node_type)
    expand_steps job source next ts

  abbrev pub get_flow : RowId → Stmt (Option FlowGraph)
  get_flow id now db = (found (fs.flow_of id), db)

  -- ListAnalysisResults, and the first summary.
  abbrev pub get_summary : RowId → Stmt Config
  get_summary id now db = (ok (fs.summary_of id), db)

  -- A failed search counts as no results.
  abbrev pub or_no_summary : Result Config → Config
  or_no_summary (ok summary) = summary
  or_no_summary (err x) = []

  abbrev pub steps_of : Walked → Option (List TaskStep)
  steps_of (Walked.walked s) = some s.steps
  steps_of (Walked.failed x) = none

  -- The second summary only sets variables of conditions, which make no task.
  unfoldable pub expand_flow_job : Job → Exec (Unit {0})
  unfolding expand_steps execute_flow mark_failed fail_job finish_expansion
  expand_flow_job job = do
    flow ← or_fail (call (get_flow job.encode_config.flow_id)) (mark_failed job.id)
    graph ← or_fail (outside flow) (mark_failed job.id)
    summary ← catch (call (get_summary job.source_id))
    steps ←
        or_fail
          (outside
            (steps_of (execute_flow rs (or_no_summary summary) graph (e.uuid_text job.source_id))))
          (mark_failed job.id)
    if length steps == 0 then mark_failed job.id else (do
      source ← or_fail (call (get_source_by_id job.source_id)) (fail_job job.id)
      ignore (call (get_summary job.source_id))
      expand_steps job source 0 steps
      finish_expansion job.id)
