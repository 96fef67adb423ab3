-- ===== src/Db/Valid/Agents.antt =====
-- The statements on agents and on the audit log keep the tables valid.
use text.Mathlib.Text.{◌==◌ as str_eq}
use text.Mathlib.TextEquality.{eq_iff}
use encodeswarmr.Prelude.{
  ℕ, suc, ◌<◌, ◌≡◌, refl, inl, inr, Bool, false, List, [], ◌∷◌, ◌++◌, Option, none, some, arith,
  String, Bool-cases, All, All-append, All-update_where, Distinct-append_one, Distinct-update_where,
  any_of, update_where, find_first,
}
use encodeswarmr.Db.Types.{RowId, Agent, AgentStatus, AuditEntry, Schedule, Db}
use encodeswarmr.Exec.Keeps.{StmtKeeps}
use encodeswarmr.Db.Agents.{
  UpsertAgentParams, fits_integer, has_agent_id, named, new_agent, refreshed, upsert_row,
  upsert_agent, get_agent_by_id, update_agent_or_missing, update_agent_status,
  update_agent_heartbeat, set_agent_upgrade_requested, update_agent_channel, is_stale,
  mark_stale_agents, create_audit_entry,
}
use encodeswarmr.Db.IsValid.{IsValid, same_agent_id, same_name}
use encodeswarmr.Db.Valid.Tasks.{All-rows, All-given, All-below, IsSourceTable-suc}

pub str_eq_sym : (s t : String) → str_eq s t ≡ str_eq t s
str_eq_sym s t = ground (arith, eq_iff s t, eq_iff t s)

fresh_agent :
    (n : RowId) (a : Agent) (as' : List Agent)
    → a.id ≡ n
    → All (λ b. b.id < n) as'
    → any_of (same_agent_id a) as' ≡ false
unfolding any_of
fresh_agent n a [] e h = refl
fresh_agent n a (b ∷ bs) e h = ground (arith, fresh_agent n a bs e h.1)

unnamed :
    (name : String) (as' : List Agent)
    → find_first (named name) as' ≡ none
    → any_of (named name) as' ≡ false
unfolding any_of find_first
unnamed name [] h = refl
unnamed name (b ∷ bs) h = ground (arith, unnamed name bs)

-- An update of agents that leaves identifiers and names alone.
update_agents-IsValid :
    (p : Agent → Bool) (f : Agent → Agent) (db : Db)
    → ((a : Agent) → (f a).id ≡ a.id)
    → ((a : Agent) → (f a).name ≡ a.name)
    → IsValid db
    → IsValid (record db { agents = update_where p f db.agents })
update_agents-IsValid p f db same kept v = record {
  task_ids_given = v.task_ids_given;
  task_ids_distinct = v.task_ids_distinct;
  slots_distinct = v.slots_distinct;
  jobs_rows = v.jobs_rows;
  job_ids_distinct = v.job_ids_distinct;
  agent_table = record {
    given =
        All-update_where (λ a. a.id < db.next_id) p f db.agents (λ a _ h. rw (same a) h)
          v.agent_table.given;
    ids_distinct =
        Distinct-update_where same_agent_id p f db.agents (λ a b. rw (same a)) (λ a b. rw (same b))
          v.agent_table.ids_distinct;
    names_distinct =
        Distinct-update_where same_name p f db.agents (λ a b. rw (kept a)) (λ a b. rw (kept b))
          v.agent_table.names_distinct;
  };
  source_table = v.source_table;
}

update_agent_or_missing-IsValid :
    (id : RowId) (f : Agent → Agent) (db : Db)
    → ((a : Agent) → (f a).id ≡ a.id)
    → ((a : Agent) → (f a).name ≡ a.name)
    → IsValid db
    → IsValid (update_agent_or_missing id f db).1
unfolding update_agent_or_missing
update_agent_or_missing-IsValid id f db same kept v =
    elim (Bool-cases (any_of (has_agent_id id) db.agents)) [
      | inl e ↦ rw e (update_agents-IsValid (has_agent_id id) f db same kept v)
      | inr e ↦ rw e v
    ]

insert_agent-IsValid :
    (a : Agent) (db : Db)
    → a.id ≡ db.next_id
    → any_of (named a.name) db.agents ≡ false
    → IsValid db
    → IsValid (record db { agents = db.agents ++ a ∷ []; next_id = suc db.next_id })
insert_agent-IsValid a db e free v = record {
  task_ids_given = All-given db.next_id db.tasks v.task_ids_given;
  task_ids_distinct = v.task_ids_distinct;
  slots_distinct = v.slots_distinct;
  jobs_rows = All-rows db.next_id db.jobs v.jobs_rows;
  job_ids_distinct = v.job_ids_distinct;
  agent_table = record {
    given =
        All-append (λ b. b.id < suc db.next_id) db.agents (a ∷ [])
          (All-below (λ b. b.id) db.next_id db.agents v.agent_table.given) (omega arith, tt);
    ids_distinct =
        Distinct-append_one same_agent_id db.agents a (λ b c. ground arith)
          (fresh_agent db.next_id a db.agents e v.agent_table.given) v.agent_table.ids_distinct;
    names_distinct =
        Distinct-append_one same_name db.agents a (λ b c. str_eq_sym c.name b.name) free
          v.agent_table.names_distinct;
  };
  source_table = IsSourceTable-suc db.next_id db.sources v.source_table;
}

upsert_row-IsValid :
    (p : UpsertAgentParams) (o : Option Agent) (db : Db)
    → find_first (named p.name) db.agents ≡ o
    → IsValid db
    → IsValid (upsert_row p o db).1
unfolding new_agent refreshed
upsert_row-IsValid p none db h v =
    insert_agent-IsValid (new_agent p db.next_id) db refl (unnamed p.name db.agents h) v
upsert_row-IsValid p (some a) db h v =
    update_agents-IsValid (named p.name) (refreshed p) db (λ b. refl) (λ b. refl) v

pub upsert_agent-keeps : (p : UpsertAgentParams) → StmtKeeps IsValid (upsert_agent p)
unfolding upsert_agent
upsert_agent-keeps p = record {
  at = λ now db v. elim (Bool-cases (fits_integer p.vnc_port)) [
    | inl e ↦ rw e (upsert_row-IsValid p _ db refl v)
    | inr e ↦ rw e v
  ];
}

pub get_agent_by_id-keeps : (id : RowId) → StmtKeeps IsValid (get_agent_by_id id)
unfolding get_agent_by_id
get_agent_by_id-keeps id = record { at = λ now db v. v }

pub update_agent_status-keeps :
    (id : RowId) (s : AgentStatus) → StmtKeeps IsValid (update_agent_status id s)
unfolding update_agent_status
update_agent_status-keeps id s = record {
  at = λ now db v. update_agent_or_missing-IsValid id _ db (λ a. refl) (λ a. refl) v;
}

pub update_agent_heartbeat-keeps :
    (id : RowId) (s : AgentStatus) → StmtKeeps IsValid (update_agent_heartbeat id s)
unfolding update_agent_heartbeat
update_agent_heartbeat-keeps id s = record {
  at = λ now db v. update_agent_or_missing-IsValid id _ db (λ a. refl) (λ a. refl) v;
}

pub set_agent_upgrade_requested-keeps :
    (id : RowId) (b : Bool) → StmtKeeps IsValid (set_agent_upgrade_requested id b)
unfolding set_agent_upgrade_requested
set_agent_upgrade_requested-keeps id b = record {
  at = λ now db v. update_agent_or_missing-IsValid id _ db (λ a. refl) (λ a. refl) v;
}

pub update_agent_channel-keeps :
    (id : RowId) (c : String) → StmtKeeps IsValid (update_agent_channel id c)
unfolding update_agent_channel
update_agent_channel-keeps id c = record {
  at = λ now db v. update_agent_or_missing-IsValid id _ db (λ a. refl) (λ a. refl) v;
}

pub mark_stale_agents-keeps : (n : ℕ) → StmtKeeps IsValid (mark_stale_agents n)
unfolding mark_stale_agents
mark_stale_agents-keeps n = record {
  at = λ now db v. update_agents-IsValid (is_stale n now) _ db (λ a. refl) (λ a. refl) v;
}

pub create_audit_entry-keeps : (e : AuditEntry) → StmtKeeps IsValid (create_audit_entry e)
unfolding create_audit_entry
create_audit_entry-keeps e = record { at = λ now db v. ground arith }

pub ruleset agent_keeps = (
  upsert_agent-keeps, get_agent_by_id-keeps, update_agent_status-keeps,
  update_agent_heartbeat-keeps, set_agent_upgrade_requested-keeps, update_agent_channel-keeps,
  mark_stale_agents-keeps, create_audit_entry-keeps,
)

-- The schedules have no part in the invariant.
pub IsValid-schedules :
    (db : Db) (ss : List Schedule) → IsValid db → IsValid (record db { schedules = ss })
IsValid-schedules db ss v = ground arith
