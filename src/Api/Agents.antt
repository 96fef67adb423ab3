-- ===== src/Api/Agents.antt =====
-- internal/controller/api/agents.go: the handlers that change agents. The audit entry is written
-- after the change, and its failure is only logged.
use text.Mathlib.Text.{◌==◌ as str_eq}
use encodeswarmr.Prelude.{String, true, not, List, [], ◌∷◌, any_of, if◌then◌else◌}
use encodeswarmr.Db.Types.{RowId, Agent, AgentStatus, is_agent_status}
use encodeswarmr.Db.Agents.{
  get_agent_by_id, update_agent_status, set_agent_upgrade_requested, update_agent_channel,
  create_audit_entry,
}
use encodeswarmr.Exec.{Exec, pure, call, catch, ignore, ◌>>=◌, ◌>>◌}
use encodeswarmr.Api.Jobs.{Reply, with_found, with_done}

unfoldable pub audit : String → RowId → Exec (Unit {0})
audit action id =
    ignore
      (call (create_audit_entry (record { action = action; resource = "agent"; resource_id = id })))

unfoldable pub handle_drain_agent : RowId → Exec Reply
handle_drain_agent id = do
  agent ← catch (call (get_agent_by_id id))
  with_found agent (λ _. do
    updated ← catch (call (update_agent_status id AgentStatus.draining))
    with_done updated (λ _. pure Reply.done))

unfoldable pub approve_found : RowId → Agent → Exec Reply
unfolding audit
approve_found id agent =
    if not (is_agent_status agent.status AgentStatus.pending_approval)
    then pure Reply.conflict
    else (do
      updated ← catch (call (update_agent_status id AgentStatus.idle))
      with_done updated (λ _. do audit "agent.approve" id; pure Reply.done))

unfoldable pub handle_approve_agent : RowId → Exec Reply
unfolding approve_found
handle_approve_agent id = do
  agent ← catch (call (get_agent_by_id id))
  with_found agent (approve_found id)

unfoldable pub handle_request_agent_upgrade : RowId → Exec Reply
unfolding audit
handle_request_agent_upgrade id = do
  agent ← catch (call (get_agent_by_id id))
  with_found agent (λ _. do
    updated ← catch (call (set_agent_upgrade_requested id true))
    with_done updated (λ _. do audit "agent.upgrade_requested" id; pure Reply.done))

abbrev pub valid_update_channels : List String
valid_update_channels = "stable" ∷ "beta" ∷ "nightly" ∷ []

unfoldable pub handle_update_agent_channel : RowId → String → Exec Reply
unfolding audit
handle_update_agent_channel id channel =
    if not (any_of (str_eq channel) valid_update_channels) then pure Reply.unprocessable else (do
      agent ← catch (call (get_agent_by_id id))
      with_found agent (λ _. do
        updated ← catch (call (update_agent_channel id channel))
        with_done updated (λ _. do audit "agent.channel_update" id; pure Reply.done)))
