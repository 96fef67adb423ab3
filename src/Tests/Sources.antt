-- ===== src/Tests/Sources.antt =====
-- The theorems on agents, sources and watched folders, at concrete inputs.
use encodeswarmr.Prelude.{
  pos, ◌≡◌, refl, String, Bool, true, false, List, [], ◌∷◌, none, some, arith, count_if, any_of,
  find_first, update_where,
}
use encodeswarmr.Db.Types.{Agent, AgentStatus}
use encodeswarmr.Db.Agents.{
  update_agent_heartbeat, update_agent_or_missing, get_agent_by_id, has_agent_id, upsert_agent,
  named,
}
use encodeswarmr.Exec.{World, ok, answering, pure, call, ◌>>=◌}
use encodeswarmr.Grpc.Register.{AgentInfo, VncConfig, agent_tags, register, upsert_params}
use encodeswarmr.Grpc.Register.Port.{upsert_agent-agent_tags}
use encodeswarmr.Grpc.Register.Approval.{is_approved, register-approves_none}
use encodeswarmr.Grpc.Heartbeat.{AgentState, HeartbeatResp, map_agent_state, heartbeat}
use encodeswarmr.Grpc.Heartbeat.Flags.{heartbeat-overwrites}
use encodeswarmr.Api.Jobs.{Reply}
use encodeswarmr.Api.Sources.{CreateSourceRequest, valid_cloud_uri, handle_create_source}
use encodeswarmr.Api.Sources.Cloud.{handle_create_source-second_cloud}
use encodeswarmr.Watcher.{Files, WatchFolder, scan}
use encodeswarmr.Watcher.Again.{scan-again}
use Prim.Native.String.{◌++◌ as append}
use encodeswarmr.Prelude.Text.{has_prefix, to_lower}
use encodeswarmr.Tests.Data.{tables, world, server, source}

-- An agent that waits for approval.
abbrev new_comer : Agent
new_comer = record {
  id = 21;
  name = "node";
  hostname = "node";
  ip_address = "10.0.0.1";
  status = AgentStatus.pending_approval;
  tags = [];
  gpu_vendor = "";
  gpu_model = "";
  gpu_enabled = false;
  agent_version = "1";
  os_version = "os";
  cpu_count = pos 8;
  ram_mib = pos 1024;
  nvenc = false;
  qsv = false;
  amf = false;
  vnc_port = pos 0;
  last_heartbeat = some 100;
  upgrade_requested = false;
  update_channel = "stable";
}

-- The same one, a second later, with an idle agent that has been silent.
abbrev with_agents : World
with_agents = record world {
  db = record tables {
    agents =
        new_comer ∷ record new_comer { id = 22; name = "silent"; status = AgentStatus.idle } ∷ [];
  };
}

abbrev answer : HeartbeatResp
answer = record { drain = false; disabled = false; server_time = 1000 }

heartbeat-overwrites_example :
    ((a : Agent) × (find_first
          (has_agent_id 21)
          (heartbeat 21 AgentState.idle with_agents).1.db.agents
        ≡ some a)
      × (a.status ≡ AgentStatus.idle))
    × (answer.drain ≡ false)
    × (answer.disabled ≡ false)
unfolding heartbeat map_agent_state call pure ◌>>=◌ update_agent_heartbeat update_agent_or_missing
    get_agent_by_id any_of update_where find_first
heartbeat-overwrites_example = heartbeat-overwrites 21 AgentState.idle with_agents {r = answer} refl

abbrev vnc : VncConfig
vnc = record { enabled = true; port = pos 5900 }

abbrev info : AgentInfo
info = record {
  hostname = "node";
  ip_address = "10.0.0.1";
  agent_version = "1";
  os_version = "os";
  cpu_count = pos 8;
  ram_mib = pos 1024;
  tags = agent_tags vnc;
  gpu = none;
}

upsert_agent-agent_tags_example :
    let r = upsert_agent (upsert_params info) 2000 tables in
    (a : Agent) × (r.0 ≡ ok a)
    × (find_first (named info.hostname) r.1.agents ≡ some a)
    × (a.vnc_port ≡ pos 5900)
    × (a.tags ≡ [])
upsert_agent-agent_tags_example = upsert_agent-agent_tags vnc info 2000 tables refl (omega arith)

register-approves_none_example :
    count_if is_approved (register server info with_agents).1.db.agents
    ≡ count_if is_approved with_agents.db.agents
register-approves_none_example = register-approves_none server info with_agents refl

-- A source in the cloud.
abbrev in_cloud : World
in_cloud = record world {
  db = record tables {
    sources = record source { unc_path = ""; cloud_uri = some "s3://bucket/a.mkv" } ∷ [];
  };
}

abbrev cloud_request : CreateSourceRequest
cloud_request = record { path = ""; name = "b"; cloud_uri = some "s3://bucket/b.mkv" }

handle_create_source-second_cloud_example :
    handle_create_source cloud_request (answering in_cloud)
    ≡ (ok Reply.server_error, answering in_cloud)
unfolding valid_cloud_uri any_of has_prefix to_lower
handle_create_source-second_cloud_example =
    handle_create_source-second_cloud cloud_request in_cloud refl refl refl

abbrev files : Files
files = record { matches = λ p n. true; lower = λ s. s; join = λ a b. append a (append "/" b) }

abbrev folder : WatchFolder
folder = record {
  name = "in";
  path = "/in";
  windows_path = "\\\\nas\\in";
  file_patterns = [];
  auto_analyze = true;
  move_after_analysis = "";
}

abbrev entries : List (String × Bool)
entries = ("a.mkv", false) ∷ ("old", true) ∷ []

scan-again_example :
    let r = scan files folder (some entries) [] (answering world) in
    (seen' : List String) × (r.0 ≡ ok seen')
    × (scan files folder (some entries) seen' r.1 ≡ (ok seen', r.1))
scan-again_example = scan-again files folder entries [] world
