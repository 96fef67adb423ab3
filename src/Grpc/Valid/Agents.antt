-- ===== src/Grpc/Valid/Agents.antt =====
-- Registrations, heartbeats and the mark of stale agents keep the tables valid, whichever calls of
-- the store fail.
use encodeswarmr.Prelude.{ℕ}
use encodeswarmr.Db.Types.{RowId, Agent}
use encodeswarmr.Db.IsValid.{IsValid}
use encodeswarmr.Db.Valid.{table_keeps}
use encodeswarmr.Exec.{pure}
use encodeswarmr.Exec.Keeps.{Keeps, keeps_rules}
use encodeswarmr.Grpc.Server.{Server}
use encodeswarmr.Grpc.Register.{AgentInfo, auto_approve, register}
use encodeswarmr.Grpc.Heartbeat.{AgentState, reply_flags, heartbeat}
use encodeswarmr.Engine.Stale.{check_stale_agents}

ruleset store_keeps = (keeps_rules, table_keeps)

auto_approve-Keeps : (s : Server) (a : Agent) → Keeps IsValid (auto_approve s a)
unfolding auto_approve
auto_approve-Keeps s a = search store_keeps depth 8

pub register-Keeps : (s : Server) (req : AgentInfo) → Keeps IsValid (register s req)
unfolding register
register-Keeps s req = search (store_keeps, auto_approve-Keeps) depth 12

reply_flags-Keeps : (a : Agent) → Keeps IsValid (reply_flags a)
unfolding pure
reply_flags-Keeps a = record { at = λ w v. v }

pub heartbeat-Keeps : (id : RowId) (st : AgentState) → Keeps IsValid (heartbeat id st)
unfolding heartbeat
heartbeat-Keeps id st = search (store_keeps, reply_flags-Keeps) depth 12

pub check_stale_agents-Keeps : (threshold : ℕ) → Keeps IsValid (check_stale_agents threshold)
unfolding check_stale_agents
check_stale_agents-Keeps threshold = search store_keeps depth 8
