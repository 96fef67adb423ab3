-- ===== src/Grpc/Heartbeat.antt =====
-- internal/controller/grpc/heartbeat.go: an agent says that it is alive, and in which state. The
-- metrics of the message are dropped by the query.
pub mod Flags
use encodeswarmr.Prelude.{ℕ, String, Bool, ◌==◌, if◌then◌else◌}
use encodeswarmr.Db.Types.{RowId, no_id, Agent, AgentStatus, is_agent_status}
use encodeswarmr.Db.Agents.{update_agent_heartbeat, get_agent_by_id}
use encodeswarmr.Exec.{Exec, Err, pure, raise, call, ◌>>=◌, ◌>>◌}

-- The states of the protocol; `unspecified` is any other number.
pub data AgentState : Type 0 where
  unspecified idle busy draining offline : AgentState

unfoldable pub map_agent_state : AgentState → AgentStatus
map_agent_state AgentState.idle = AgentStatus.idle
map_agent_state AgentState.busy = AgentStatus.busy
map_agent_state AgentState.draining = AgentStatus.busy
map_agent_state AgentState.offline = AgentStatus.offline
map_agent_state AgentState.unspecified = AgentStatus.idle

pub record HeartbeatResp : Type 0 where
  pub drain : Bool
  pub disabled : Bool
  pub server_time : ℕ

abbrev pub flags_of : Agent → ℕ → HeartbeatResp
flags_of a now = record {
  drain = is_agent_status a.status AgentStatus.draining;
  disabled = is_agent_status a.status AgentStatus.disabled;
  server_time = now;
}

abbrev pub reply_flags : Agent → Exec HeartbeatResp
reply_flags a w = pure (flags_of a w.now) w

unfoldable pub heartbeat : RowId → AgentState → Exec HeartbeatResp
unfolding map_agent_state pure
heartbeat agent_id state = if agent_id == no_id then raise Err.invalid_argument else (do
  call (update_agent_heartbeat agent_id (map_agent_state state))
  a ← call (get_agent_by_id agent_id)
  reply_flags a)
