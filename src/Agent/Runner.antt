-- ===== src/Agent/Runner.antt =====
-- internal/agent/service/runner.go: the agent polls for a task, checks it, runs it and reports its
-- result, into the journal if the report fails. The files, the download and the process of a task
-- that passes the checks are a parameter, and so are strings.ToLower and strings.TrimSpace.
pub mod Delivery
use encodeswarmr.Prelude.{
  ℕ, ℤ, pos, negsuc, ltbℤ, String, Bool, true, false, not, ◌&&◌, ◌||◌, List, [], ◌∷◌, ◌++◌, Option,
  none, some, ltb, ◌==◌, if◌then◌else◌, length, any_of,
}
use encodeswarmr.Prelude.Text.{codes, has_prefix, is_blank}
use encodeswarmr.Db.Types.{RowId, no_id}
use encodeswarmr.Grpc.Server.{TaskResult}
use encodeswarmr.Grpc.Heartbeat.{AgentState}
use encodeswarmr.Agent.Journal.{OfflineStore, save_result}

pub record TaskAssignment : Type 0 where
  pub task_id : RowId
  pub job_id : RowId
  pub scripts : List (String × String)
  pub variables : List (String × String)
  pub source_path : String
  pub output_path : String
  pub timeout_sec : ℤ

pub data Refusal : Type 0 where
  invalid_timeout empty_param bad_source_path bad_output_path : Refusal
  no_scripts empty_script no_entrypoint : Refusal

pub record Host : Type 0 where
  pub windows : Bool
  pub allowed_shares : List String
  pub lower : String → String
  pub trim : String → String
  -- What executeTask returns behind its checks, and the text of a refusal.
  pub outcome : TaskAssignment → ℤ × Option String
  pub message : TaskAssignment → Refusal → String

-- strings.HasSuffix
unfoldable pub has_suffix : List ℕ → List ℕ → Bool
unfolding has_prefix
has_suffix suffix [] = length suffix == 0
has_suffix suffix (c ∷ s) =
    has_prefix suffix (c ∷ s) && has_prefix (c ∷ s) suffix || has_suffix suffix s

pub record Runner : Type 0 where
  pub state : AgentState
  pub current_task : RowId
  pub journal : OfflineStore

-- What comes of a report: an answer, a failure behind the controller's work, or one before it.
pub data Report : Type 0 where
  replied unanswered lost : Report

abbrev pub received : Report → TaskResult → List TaskResult
received Report.replied res = res ∷ []
received Report.unanswered res = res ∷ []
received Report.lost res = []

abbrev pub is_replied : Report → Bool
is_replied Report.replied = true
is_replied _ = false

-- The time of the cycle, the answer of the poll (`none` is a failure or no task), what comes of the
-- report, and whether the journal would take the result.
pub record Cycle : Type 0 where
  pub now : ℕ
  pub task : Option TaskAssignment
  pub report : Report
  pub saved : Bool

abbrev pub set_state : AgentState → RowId → Runner → Runner
set_state s id r = record r { state = s; current_task = id }

-- SaveResult of the fields of a result; if it fails, that is only logged.
abbrev pub save : Bool → ℕ → TaskResult → Runner → Runner
save false now res r = r
save true now res r = record r {
  journal =
      save_result now res.task_id res.job_id res.success res.exit_code res.error_msg r.journal;
}

module _ (h : Host) where
  unfoldable pub share_allowed : String → Bool
  unfolding has_prefix
  share_allowed path =
      length h.allowed_shares == 0
      || any_of (λ p. has_prefix (codes (h.lower p)) (codes (h.lower path))) h.allowed_shares

  -- A path that is not empty and that the shares do not allow.
  abbrev pub is_barred : String → Bool
  is_barred path = not (is_blank path) && not (share_allowed path)

  abbrev pub is_empty_param : String × String → Bool
  is_empty_param (k, v) = has_prefix (codes "ES_PARAM_") (codes k) && is_blank v

  abbrev pub required_ext : String
  required_ext = if h.windows then ".bat" else ".sh"

  abbrev pub is_entrypoint : String × String → Bool
  is_entrypoint (name, content) = has_suffix (codes required_ext) (codes (h.lower name))

  abbrev pub is_empty_script : String × String → Bool
  is_empty_script s = is_entrypoint s && is_blank (h.trim s.1)

  unfoldable pub validate_task : TaskAssignment → Option Refusal
  unfolding share_allowed has_suffix has_prefix
  validate_task t =
      if ltbℤ t.timeout_sec (pos 0)
      then some Refusal.invalid_timeout
      else if any_of is_empty_param t.variables
      then some Refusal.empty_param
      else if is_barred t.source_path
      then some Refusal.bad_source_path
      else if is_barred t.output_path
      then some Refusal.bad_output_path
      else if length t.scripts == 0
      then some Refusal.no_scripts
      else if any_of is_empty_script t.scripts
      then some Refusal.empty_script
      else if not (any_of is_entrypoint t.scripts)
      then some Refusal.no_entrypoint
      else none

  abbrev pub run_unless : TaskAssignment → Option Refusal → ℤ × Option String
  run_unless t none = h.outcome t
  run_unless t (some r) = (negsuc 0, some (h.message t r))

  unfoldable pub execute_task : TaskAssignment → ℤ × Option String
  unfolding validate_task
  execute_task t = run_unless t (validate_task t)

  abbrev pub is_exit_zero : ℤ → Bool
  is_exit_zero (pos n) = n == 0
  is_exit_zero (negsuc n) = false

  abbrev pub succeeds : ℤ × Option String → Bool
  succeeds (code, none) = is_exit_zero code
  succeeds (code, some e) = false

  abbrev pub error_text : Option String → String
  error_text none = ""
  error_text (some e) = e

  unfoldable pub result_of : TaskAssignment → TaskResult
  unfolding execute_task
  result_of t = record {
    task_id = t.task_id;
    job_id = t.job_id;
    success = succeeds (execute_task t);
    exit_code = (execute_task t).0;
    error_msg = error_text (execute_task t).1;
    metrics = none;
    offline_result = false;
  }

  abbrev pub handle_task : ℕ → Report → Bool → TaskAssignment → Runner → Runner × List TaskResult
  handle_task now report saved t r =
      let busy = set_state AgentState.busy t.task_id r in
      (
        set_state AgentState.idle no_id
            (if is_replied report then busy else save saved now (result_of t) busy),
        received report (result_of t),
      )

  abbrev pub on_answer :
      ℕ → Report → Bool → Option TaskAssignment → Runner → Runner × List TaskResult
  on_answer now report saved none r = (r, [])
  on_answer now report saved (some t) r = handle_task now report saved t r

  unfoldable pub poll_and_execute : Cycle → Runner → Runner × List TaskResult
  unfolding result_of
  poll_and_execute c r = on_answer c.now c.report c.saved c.task r

  -- The turns of pollLoop, in none of which the agent is busy: the runner, and what the controller
  -- has received.
  unfoldable pub poll_loop : List Cycle → Runner → Runner × List TaskResult
  unfolding poll_and_execute
  poll_loop [] r = (r, [])
  poll_loop (c ∷ cs) r =
      let (r', got) = poll_and_execute c r in
      let (r'', more) = poll_loop cs r' in (r'', got ++ more)
