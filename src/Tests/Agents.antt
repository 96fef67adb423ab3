-- ===== src/Tests/Agents.antt =====
-- The theorems on agents, their journal and the webhooks, at concrete inputs.
use encodeswarmr.Prelude.{
  ℕ, suc, ◌+◌, ◌≤◌, ◌≡◌, refl, pos, Bool, true, false, not, ◌==◌, ◌++◌, [], ◌∷◌, map, find_first,
  any_of, update_where, length, count_if, select,
}
use encodeswarmr.Exec.{ok, call, pure, or_internal, ignore, ◌>>=◌}
use encodeswarmr.Db.Tasks.{
  get_task_by_id, complete_task, update_all, list_tasks_by_job, sort_by_chunk, insert_by_chunk,
  fail_task,
}
use encodeswarmr.Db.Jobs.{update_job_task_counts, count_status, get_job_by_id}
use encodeswarmr.Grpc.Result.{
  process_result, validate_output, check_job_completion, check_concat, check_vmaf, start_or_skip,
  finish_job,
}
use encodeswarmr.Grpc.Sync.{SyncResponse, sync_loop, accept_result, sync_offline_results}
use encodeswarmr.Grpc.Sync.Totals.{sync_offline_results-Accounts, sync_offline_results-of_journal}
use encodeswarmr.Agent.Journal.{
  OfflineResult, OfflineStore, to_message, pending_results, sync_results, prune_journal,
}
use encodeswarmr.Agent.Journal.Replay.{sync_results-settles, prune_journal-pending}
use encodeswarmr.Agent.Runner.{Host, TaskAssignment, Report, Cycle, Runner, poll_loop}
use encodeswarmr.Agent.Runner.Delivery.{AllDelivered, poll_loop-delivers}
use encodeswarmr.Grpc.Heartbeat.{AgentState}
use encodeswarmr.Db.Types.{RowId}
use encodeswarmr.Prelude.{List, none, some}
use encodeswarmr.Webhooks.Sender.{Answer, send}
use encodeswarmr.Webhooks.Sender.Attempts.{IsLog, allowed, send-IsLog}
use encodeswarmr.Tests.Data.{world, server, offline_result}

abbrev journal_row : OfflineResult
journal_row = record {
  id = 1;
  task_id = 2;
  job_id = 1;
  success = true;
  exit_code = pos 0;
  error_msg = "";
  created_at = 900;
  synced = false;
}

abbrev journal : OfflineStore
journal = record {
  results = journal_row ∷ (record journal_row { id = 2; synced = true }) ∷ [];
  next_id = 3;
}

abbrev one_accepted : SyncResponse
one_accepted = record { accepted = 1; rejected_task_ids = [] }

-- The second pending row cannot be marked.
abbrev marks : ℕ → Bool
marks id = id == 1

abbrev two_pending : OfflineStore
two_pending = record journal { results = journal.results ++ record journal_row { id = 3 } ∷ [] }

sync_results-settles_example :
    (pending_results (sync_results 5 true marks two_pending).1
      ≡ select (λ r. not (marks r.id)) (pending_results two_pending))
    × ((sync_results 5 false marks two_pending).1 ≡ two_pending)
sync_results-settles_example = sync_results-settles marks 5 two_pending

prune_journal-pending_example :
    pending_results (prune_journal 950 journal) ≡ pending_results journal
prune_journal-pending_example = prune_journal-pending 950 journal

abbrev host : Host
host = record {
  windows = false;
  allowed_shares = [];
  lower = λ s. s;
  trim = λ s. s;
  outcome = λ t. (pos 0, none);
  message = λ t r. "refused";
}

abbrev assignment : RowId → TaskAssignment
assignment id = record {
  task_id = id;
  job_id = 1;
  scripts = ("run.sh", "true") ∷ [];
  variables = [];
  source_path = "/in";
  output_path = "/out";
  timeout_sec = pos 60;
}

-- A report that arrives, a turn without a task, and a report that is lost.
abbrev three_cycles : List Cycle
three_cycles =
    record { now = 1000; task = some (assignment 2); report = Report.replied; saved = false }
    ∷ record { now = 1010; task = none; report = Report.replied; saved = true }
    ∷ record { now = 1020; task = some (assignment 3); report = Report.lost; saved = true }
    ∷ []

abbrev runner : Runner
runner = record { state = AgentState.idle; current_task = 0; journal = journal }

poll_loop-delivers_example :
    let after = poll_loop host three_cycles runner in
    AllDelivered host three_cycles after.1
      (sync_results (length (pending_results after.0.journal)) true marks after.0.journal).0
poll_loop-delivers_example =
    poll_loop-delivers host three_cycles runner marks (refl, (refl, (refl, tt)))

-- The first answer is an error of the server, the second a success.
abbrev respond : ℕ → Answer
respond n = elim n [ suc (suc k) ↦ (200, "") | _ ↦ (500, "") ]

send-IsLog_example :
    let (made, rows) = send respond (λ n. false) (λ n. 1 == n) (pos 3) in
    IsLog 1 made × (length made ≤ allowed (pos 3)) × (rows ≡ select (λ row. 1 == row.attempt) made)
send-IsLog_example = send-IsLog respond (λ n. false) (λ n. 1 == n) (pos 3)

-- The replay of one result.
replay_run : (sync_offline_results server (λ r. 3) (offline_result ∷ []) world).0 ≡ ok one_accepted
unfolding sync_offline_results sync_loop accept_result ◌>>=◌ or_internal call get_task_by_id
    find_first process_result validate_output pure complete_task update_all any_of update_where
    update_job_task_counts count_status count_if check_job_completion get_job_by_id check_concat
    check_vmaf list_tasks_by_job sort_by_chunk insert_by_chunk select start_or_skip fail_task ignore
    finish_job
replay_run = refl

sync_offline_results-Accounts_example : 1 + 0 ≡ 1
sync_offline_results-Accounts_example =
    sync_offline_results-Accounts server (λ r. 3) (offline_result ∷ []) world one_accepted
      replay_run

sync_offline_results-of_journal_example :
    (one_accepted.rejected_task_ids ≡ [])
    × (one_accepted.accepted ≡ length (map to_message (journal_row ∷ [])))
sync_offline_results-of_journal_example =
    sync_offline_results-of_journal server (λ r. 3) (journal_row ∷ []) world one_accepted replay_run
