-- ===== src/Db/Agents.antt =====
-- internal/db/queries.go: the queries on the table of agents, whose names are unique, and the audit
-- log.
use text.Mathlib.Text.{◌==◌ as str_eq}
use encodeswarmr.Prelude.{
  ℕ, suc, ◌+◌, ℤ, pos, negsuc, ltbℤ, not, String, Bool, false, ◌&&◌, ◌||◌, List, [], ◌∷◌, ◌++◌,
  Option, none, some, ltb, ◌==◌, if◌then◌else◌, count_if, find_first, any_of, update_where,
}
use encodeswarmr.Db.Types.{RowId, Agent, AgentStatus, AuditEntry, Db, is_agent_status}
use encodeswarmr.Exec.{Stmt, Result, ok, err, Err}
use encodeswarmr.Db.Tasks.{found}

pub record UpsertAgentParams : Type 0 where
  pub name : String
  pub hostname : String
  pub ip_address : String
  pub tags : List String
  pub gpu_vendor : String
  pub gpu_model : String
  pub gpu_enabled : Bool
  pub agent_version : String
  pub os_version : String
  pub cpu_count : ℤ
  pub ram_mib : ℤ
  pub nvenc : Bool
  pub qsv : Bool
  pub amf : Bool
  pub vnc_port : ℤ

abbrev pub has_agent_id : RowId → Agent → Bool
has_agent_id id a = a.id == id

abbrev pub named : String → Agent → Bool
named name a = str_eq a.name name

-- A new row: the columns that the statement leaves out take their defaults.
unfoldable pub new_agent : UpsertAgentParams → RowId → Agent
new_agent p id = record {
  id = id;
  name = p.name;
  hostname = p.hostname;
  ip_address = p.ip_address;
  status = AgentStatus.pending_approval;
  tags = p.tags;
  gpu_vendor = p.gpu_vendor;
  gpu_model = p.gpu_model;
  gpu_enabled = p.gpu_enabled;
  agent_version = p.agent_version;
  os_version = p.os_version;
  cpu_count = p.cpu_count;
  ram_mib = p.ram_mib;
  nvenc = p.nvenc;
  qsv = p.qsv;
  amf = p.amf;
  vnc_port = p.vnc_port;
  last_heartbeat = none;
  upgrade_requested = false;
  update_channel = "stable";
}

-- ON CONFLICT (name) DO UPDATE
unfoldable pub refreshed : UpsertAgentParams → Agent → Agent
refreshed p a = record a {
  hostname = p.hostname;
  ip_address = p.ip_address;
  tags = p.tags;
  gpu_vendor = p.gpu_vendor;
  gpu_model = p.gpu_model;
  gpu_enabled = p.gpu_enabled;
  agent_version = p.agent_version;
  os_version = p.os_version;
  cpu_count = p.cpu_count;
  ram_mib = p.ram_mib;
  nvenc = p.nvenc;
  qsv = p.qsv;
  amf = p.amf;
  vnc_port = p.vnc_port;
}

abbrev pub upsert_row : UpsertAgentParams → Option Agent → Db → Result Agent × Db
upsert_row p none db =
    let a = new_agent p db.next_id in
    (ok a, record db { agents = db.agents ++ a ∷ []; next_id = suc db.next_id })
upsert_row p (some a) db =
    (ok (refreshed p a), record db { agents = update_where (named p.name) (refreshed p) db.agents })

-- INTEGER, the type of vnc_port in migration 012: 32 bits.
abbrev pub integer_max : ℕ
integer_max = 2147483647

abbrev pub fits_integer : ℤ → Bool
fits_integer n = not (ltbℤ n (negsuc integer_max)) && not (ltbℤ (pos integer_max) n)

unfoldable pub upsert_agent : UpsertAgentParams → Stmt Agent
unfolding new_agent refreshed
upsert_agent p now db =
    if fits_integer p.vnc_port
    then upsert_row p (find_first (named p.name) db.agents) db
    else (err Err.out_of_range, db)

unfoldable pub get_agent_by_id : RowId → Stmt Agent
get_agent_by_id id now db = (found (find_first (has_agent_id id) db.agents), db)

unfoldable pub update_agent_or_missing : RowId → (Agent → Agent) → Db → Result (Unit {0}) × Db
update_agent_or_missing id f db =
    if any_of (has_agent_id id) db.agents
    then (ok tt, record db { agents = update_where (has_agent_id id) f db.agents })
    else (err Err.not_found, db)

abbrev pub with_agent_status : AgentStatus → Agent → Agent
with_agent_status status a = record a { status = status }

unfoldable pub update_agent_status : RowId → AgentStatus → Stmt (Unit {0})
unfolding update_agent_or_missing
update_agent_status id status now = update_agent_or_missing id (with_agent_status status)

-- A row after a heartbeat; the metrics are not stored.
abbrev pub with_heartbeat : AgentStatus → ℕ → Agent → Agent
with_heartbeat status now a = record a { status = status; last_heartbeat = some now }

unfoldable pub update_agent_heartbeat : RowId → AgentStatus → Stmt (Unit {0})
unfolding update_agent_or_missing
update_agent_heartbeat id status now = update_agent_or_missing id (with_heartbeat status now)

unfoldable pub update_agent_vnc_port : RowId → ℤ → Stmt (Unit {0})
unfolding update_agent_or_missing
update_agent_vnc_port id port now db =
    if fits_integer port
    then update_agent_or_missing id (λ a. record a { vnc_port = port }) db
    else (err Err.out_of_range, db)

unfoldable pub update_agent_tags : RowId → List String → Stmt (Unit {0})
unfolding update_agent_or_missing
update_agent_tags id tags now = update_agent_or_missing id (λ a. record a { tags = tags })

unfoldable pub set_agent_upgrade_requested : RowId → Bool → Stmt (Unit {0})
unfolding update_agent_or_missing
set_agent_upgrade_requested id requested now =
    update_agent_or_missing id (λ a. record a { upgrade_requested = requested })

unfoldable pub update_agent_channel : RowId → String → Stmt (Unit {0})
unfolding update_agent_or_missing
update_agent_channel id channel now =
    update_agent_or_missing id (λ a. record a { update_channel = channel })

-- last_heartbeat < now() - $1; it is not true of a missing heartbeat.
abbrev pub silent_for : ℕ → ℕ → Option ℕ → Bool
silent_for older_than now none = false
silent_for older_than now (some t) = ltb (t + older_than) now

-- status IN ('idle', 'busy') AND last_heartbeat < now() - $1
unfoldable pub is_stale : ℕ → ℕ → Agent → Bool
is_stale older_than now a =
    (is_agent_status a.status AgentStatus.idle || is_agent_status a.status AgentStatus.busy)
    && silent_for older_than now a.last_heartbeat

unfoldable pub mark_stale_agents : ℕ → Stmt ℕ
unfolding is_stale
mark_stale_agents older_than now db = (
  ok (count_if (is_stale older_than now) db.agents),
  record db {
    agents =
        update_where (is_stale older_than now) (with_agent_status AgentStatus.offline) db.agents;
  },
)

unfoldable pub create_audit_entry : AuditEntry → Stmt (Unit {0})
create_audit_entry e now db = (ok tt, record db { audit = db.audit ++ e ∷ [] })
