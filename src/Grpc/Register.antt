-- ===== src/Grpc/Register.antt =====
-- internal/controller/grpc/register.go and the registration of internal/agent/service/runner.go: an
-- agent registers, with the port of its VNC server in a reserved tag.
pub mod Port
pub mod Approval
use Prim.Native.String.{◌++◌ as append}
use encodeswarmr.Prelude.{
  ℕ, ℤ, pos, negsuc, String, Bool, true, false, not, ◌&&◌, List, [], ◌∷◌, Option, none, some, ltb,
  if◌then◌else◌, length,
}
use encodeswarmr.Prelude.Text.{codes, has_prefix, drop_codes, atoi, decimal_from}
use encodeswarmr.Db.Types.{RowId, Agent, AgentStatus, is_agent_status}
use encodeswarmr.Db.Agents.{UpsertAgentParams, upsert_agent, update_agent_status}
use encodeswarmr.Exec.{Exec, Event, pure, call, emit, ◌>>=◌, ◌>>◌}
use encodeswarmr.Grpc.Server.{Server}

pub record GpuCapabilities : Type 0 where
  pub vendor : String
  pub model : String
  pub nvenc : Bool
  pub qsv : Bool
  pub amf : Bool

pub record AgentInfo : Type 0 where
  pub hostname : String
  pub ip_address : String
  pub agent_version : String
  pub os_version : String
  pub cpu_count : ℤ
  pub ram_mib : ℤ
  pub tags : List String
  pub gpu : Option GpuCapabilities

pub record RegisterResponse : Type 0 where
  pub agent_id : RowId
  pub approved : Bool

abbrev pub vnc_prefix : String
vnc_prefix = "__vnc_port="

unfoldable pub is_reserved : String → Bool
unfolding has_prefix
is_reserved t = has_prefix (codes vnc_prefix) (codes t)

abbrev pub port_or : ℤ → Option ℤ → ℤ
port_or port none = port
port_or port (some p) = p

abbrev pub with_tag : String → ℤ × List String → ℤ × List String
with_tag t (port, visible) = (port, t ∷ visible)

-- The loop over the tags, with the port read so far: the port, and the tags that are left.
unfoldable pub strip_tags : ℤ → List String → ℤ × List String
unfolding is_reserved drop_codes atoi
strip_tags port [] = (port, [])
strip_tags port (t ∷ ts) =
    let reserved =
      strip_tags (port_or port (atoi (drop_codes (length (codes vnc_prefix)) (codes t)))) ts in
    let visible = with_tag t (strip_tags port ts) in if is_reserved t then reserved else visible

abbrev pub gpu_params : Option GpuCapabilities → UpsertAgentParams → UpsertAgentParams
gpu_params none p = p
gpu_params (some g) p = record p {
  gpu_vendor = g.vendor;
  gpu_model = g.model;
  gpu_enabled = true;
  nvenc = g.nvenc;
  qsv = g.qsv;
  amf = g.amf;
}

unfoldable pub upsert_params : AgentInfo → UpsertAgentParams
unfolding strip_tags
upsert_params req =
    let (port, visible) = strip_tags (pos 0) req.tags in
    gpu_params req.gpu (record {
      name = req.hostname;
      hostname = req.hostname;
      ip_address = req.ip_address;
      tags = visible;
      gpu_vendor = "";
      gpu_model = "";
      gpu_enabled = false;
      agent_version = req.agent_version;
      os_version = req.os_version;
      cpu_count = req.cpu_count;
      ram_mib = req.ram_mib;
      nvenc = false;
      qsv = false;
      amf = false;
      vnc_port = port;
    })

abbrev pub is_pending : Agent → Bool
is_pending a = is_agent_status a.status AgentStatus.pending_approval

-- The row as the handler goes on with it: approved at once if the controller is told to.
unfoldable pub auto_approve : Server → Agent → Exec Agent
auto_approve s a =
    if s.auto_approve && is_pending a
    then (do
      call (update_agent_status a.id AgentStatus.idle)
      pure (record a { status = AgentStatus.idle }))
    else pure a

unfoldable pub register : Server → AgentInfo → Exec RegisterResponse
unfolding upsert_params auto_approve
register s req = do
  row ← call (upsert_agent (upsert_params req))
  a ← auto_approve s row
  emit (Event.agent_registered a.id a.name (not (is_pending a)))
  pure (record { agent_id = a.id; approved = not (is_pending a) })

-- The tags of an agent's registration: only the reserved one.
pub record VncConfig : Type 0 where
  pub enabled : Bool
  pub port : ℤ

abbrev pub port_tag : ℤ → List String
port_tag (pos n) = if ltb 0 n then append vnc_prefix (decimal_from n n) ∷ [] else []
port_tag (negsuc n) = []

unfoldable pub agent_tags : VncConfig → List String
unfolding decimal_from
agent_tags c = if c.enabled then port_tag c.port else []
