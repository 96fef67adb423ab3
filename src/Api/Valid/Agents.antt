-- ===== src/Api/Valid/Agents.antt =====
-- The handlers on agents and on sources keep the tables valid, whichever calls of the store fail.
use encodeswarmr.Prelude.{ℤ, String, List, Option}
use encodeswarmr.Db.Types.{RowId, JobType, Agent, Source}
use encodeswarmr.Db.IsValid.{IsValid}
use encodeswarmr.Exec.{Exec, Result, ok, err, Err}
use encodeswarmr.Exec.Keeps.{Keeps}
use encodeswarmr.Api.Jobs.{Reply}
use encodeswarmr.Api.Agents.{
  audit, approve_found, handle_drain_agent, handle_approve_agent, handle_request_agent_upgrade,
  handle_update_agent_channel,
}
use encodeswarmr.Api.Sources.{
  CreateSourceRequest, schedule_source_analysis, insert_source, unless_known, handle_create_source,
  job_for, handle_analyze_source, handle_hdr_detect_source, handle_encode_source,
  handle_update_source_hdr,
}
use encodeswarmr.Api.Valid.Rules.{api_keeps}

pub handle_drain_agent-Keeps : (id : RowId) → Keeps IsValid (handle_drain_agent id)
unfolding handle_drain_agent
handle_drain_agent-Keeps id = search api_keeps depth 12

audit-Keeps : (action : String) (id : RowId) → Keeps IsValid (audit action id)
unfolding audit
audit-Keeps action id = search api_keeps depth 6

approve_found-Keeps : (id : RowId) (a : Agent) → Keeps IsValid (approve_found id a)
unfolding approve_found
approve_found-Keeps id a = search (api_keeps, audit-Keeps) depth 14

pub handle_approve_agent-Keeps : (id : RowId) → Keeps IsValid (handle_approve_agent id)
unfolding handle_approve_agent
handle_approve_agent-Keeps id = search (api_keeps, approve_found-Keeps) depth 10

pub handle_request_agent_upgrade-Keeps :
    (id : RowId) → Keeps IsValid (handle_request_agent_upgrade id)
unfolding handle_request_agent_upgrade
handle_request_agent_upgrade-Keeps id = search (api_keeps, audit-Keeps) depth 14

pub handle_update_agent_channel-Keeps :
    (id : RowId) (c : String) → Keeps IsValid (handle_update_agent_channel id c)
unfolding handle_update_agent_channel
handle_update_agent_channel-Keeps id c = search (api_keeps, audit-Keeps) depth 16

pub schedule_source_analysis-Keeps : (id : RowId) → Keeps IsValid (schedule_source_analysis id)
unfolding schedule_source_analysis
schedule_source_analysis-Keeps id = search api_keeps depth 10

insert_source-Keeps : (req : CreateSourceRequest) → Keeps IsValid (insert_source req)
unfolding insert_source
insert_source-Keeps req = search (api_keeps, schedule_source_analysis-Keeps) depth 14

unless_known-Keeps :
    (r : Result Source) (k : Exec Reply) → Keeps IsValid k → Keeps IsValid (unless_known r k)
unless_known-Keeps (ok s) k h = record { at = λ w v. v }
unless_known-Keeps (err Err.not_found) k h = record { at = λ w v. h.at w v }
unless_known-Keeps (err e) k h = record { at = λ w v. v }

pub handle_create_source-Keeps :
    (req : CreateSourceRequest) → Keeps IsValid (handle_create_source req)
unfolding handle_create_source
handle_create_source-Keeps req =
    search (api_keeps, insert_source-Keeps, unless_known-Keeps) depth 12

job_for-Keeps :
    (id : RowId) (ty : JobType) (p : ℤ) (tags : Option (List String))
    → Keeps IsValid (job_for id ty p tags)
unfolding job_for
job_for-Keeps id ty p tags = search api_keeps depth 14

pub handle_analyze_source-Keeps : (id : RowId) → Keeps IsValid (handle_analyze_source id)
unfolding handle_analyze_source
handle_analyze_source-Keeps id = job_for-Keeps id _ _ _

pub handle_hdr_detect_source-Keeps : (id : RowId) → Keeps IsValid (handle_hdr_detect_source id)
unfolding handle_hdr_detect_source
handle_hdr_detect_source-Keeps id = job_for-Keeps id _ _ _

pub handle_encode_source-Keeps :
    (id : RowId) (ty : JobType) (p : ℤ) (tags : Option (List String))
    → Keeps IsValid (handle_encode_source id ty p tags)
unfolding handle_encode_source
handle_encode_source-Keeps id ty p tags = job_for-Keeps id ty p tags

pub handle_update_source_hdr-Keeps :
    (id : RowId) (h : String) (p : ℤ) → Keeps IsValid (handle_update_source_hdr id h p)
unfolding handle_update_source_hdr
handle_update_source_hdr-Keeps id h p = search api_keeps depth 14
