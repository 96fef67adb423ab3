-- ===== src/Tests/Store.antt =====
-- The theorems on the store and on the engine, at concrete inputs.
use mathlib.Core.List.{Memᴰ}
use encodeswarmr.Prelude.{
  map, select, ◌+◌, ◌*◌, ◌^◌, ◌≡◌, refl, ◌≢◌, pos, negsuc, min, ◌-ℤ◌, true, false, List, [], ◌∷◌,
  none, some, arith, All, any_of, find_first, update_where,
}
use encodeswarmr.Db.Types.{Task, TaskStatus, Job, Db, TaskType, is_task_type}
use encodeswarmr.Db.Tasks.{claim_concat_task}
use encodeswarmr.Db.Jobs.{update_job_task_counts, with_counts}
use encodeswarmr.Db.Jobs.Counts.{IsCounted, update_job_task_counts-IsCounted}
use encodeswarmr.Db.Claim.{
  claim_next_task, next_task, eligible, before, job_of, to_assigned, is_claimable_job, is_empty,
  backoff_over,
}
use encodeswarmr.Db.Claim.Once.{
  Claims, claim_next_task-Claims, claim_next_task-twice, claim_next_task-untagged,
}
use encodeswarmr.Db.Tasks.Claims.{claim_concat_task-twice}
use encodeswarmr.Db.Retry.{backoff_seconds}
use encodeswarmr.Db.Retry.Backoff.{backoff_seconds-doubles, backoff_seconds-lost}
use encodeswarmr.Exec.{ok, err, Err}
use encodeswarmr.Engine.Float.{whole}
use encodeswarmr.Engine.Chunks.{compute_adaptive_chunks}
use encodeswarmr.Engine.Chunks.Cover.{Covers, compute_adaptive_chunks-Covers}
use encodeswarmr.Engine.Chunks.Sizes.{FirstEndsBefore, compute_adaptive_chunks_short}
use encodeswarmr.Prelude.Text.{has_prefix}
use encodeswarmr.Engine.Flow.{
  FlowGraph, validate_flow, check_edges, is_input, dfs, visit_all, mem, targets,
}
use encodeswarmr.Engine.Flow.Order.{IsOrder, validate_flow-IsOrder}
use encodeswarmr.Engine.Flow.Fuel.{is_stuck, validate_flow-ends}
use encodeswarmr.Engine.Scaling.{AutoScalingConfig, AutoScalingHook}
use encodeswarmr.Engine.Scaling.Cooldown.{Tick, ups, Spaced, ups-Spaced}
use encodeswarmr.Tests.Data.{tables, running_job, failed_task, open_task}

claim_next_task-Claims_example : Claims 5 [] 1000 tables (claim_next_task 5 [] 1000 tables)
claim_next_task-Claims_example = claim_next_task-Claims 5 [] 1000 tables

abbrev second_open : Task
second_open = record failed_task { status = TaskStatus.pending }

-- The tables with a second chunk open.
abbrev two_open : Db
two_open = record tables { tasks = open_task ∷ second_open ∷ [] }

claim_next_task-twice_example : second_open.id ≢ open_task.id
unfolding claim_next_task next_task eligible job_of before find_first update_where
claim_next_task-twice_example =
    claim_next_task-twice 5 8 [] [] 1000 1001 two_open (to_assigned 5 1000 open_task)
      (to_assigned 8 1001 second_open) refl refl

-- The row that the claim of `open_task` has come from, and its job.
abbrev IsUntagged : Task → Type 0
IsUntagged t =
    (u : Task) × (Memᴰ u tables.tasks)
    × (u.id ≡ t.id)
    × (is_task_type u.task_type TaskType.concat ≡ false)
    × (backoff_over 1000 u.retry_after ≡ true)
    × ((j : Job) × (job_of tables.jobs u ≡ some j)
        × (is_claimable_job j ≡ true)
        × (is_empty j.target_tags ≡ true))

claim_next_task-untagged_example : IsUntagged (to_assigned 5 1000 open_task)
unfolding claim_next_task next_task eligible job_of before find_first
claim_next_task-untagged_example =
    claim_next_task-untagged 5 1000 tables (to_assigned 5 1000 open_task) refl

update_job_task_counts-IsCounted_example :
    IsCounted tables.tasks (with_counts tables.tasks running_job)
unfolding update_job_task_counts update_where
update_job_task_counts-IsCounted_example =
    update_job_task_counts-IsCounted 1 1000 tables (with_counts tables.tasks running_job)
      (Memᴰ.head refl) refl

claim_concat_task-twice_example :
    ((claim_concat_task 4 1000 tables).0 ≡ ok tt)
    × (claim_concat_task 4 1001 (claim_concat_task 4 1000 tables).1
        ≡ (err Err.not_found, (claim_concat_task 4 1000 tables).1))
unfolding any_of
claim_concat_task-twice_example = claim_concat_task-twice 4 1000 1001 tables refl

backoff_seconds-doubles_example : backoff_seconds 5 ≡ pos (min (2 ^ 5 * 30) 3600)
backoff_seconds-doubles_example = backoff_seconds-doubles 5 (omega arith)

backoff_seconds-lost_example : backoff_seconds (64 + 3) ≡ pos 0
backoff_seconds-lost_example = backoff_seconds-lost 3

compute_adaptive_chunks-Covers_example :
    Covers (pos 0) (pos 4000 -ℤ pos 1) (compute_adaptive_chunks whole (30 ∷ 10 ∷ []) 4000)
compute_adaptive_chunks-Covers_example =
    compute_adaptive_chunks-Covers whole 4000 30 (10 ∷ []) (omega arith)

compute_adaptive_chunks_short_example :
    FirstEndsBefore (negsuc 0) (compute_adaptive_chunks whole (30 ∷ 10 ∷ []) 300)
compute_adaptive_chunks_short_example =
    compute_adaptive_chunks_short whole 300 30 10 [] (omega arith)

abbrev scaling : AutoScalingConfig
scaling = record {
  enabled = true;
  webhook_url = "http://scale";
  scale_up_threshold = pos 10;
  scale_down_threshold = pos 5;
  cooldown_seconds = pos 60;
}

abbrev ticks : List Tick
ticks =
    record { now = 100; pending = 20; active = 2; idle = 0 }
    ∷ record { now = 110; pending = 20; active = 2; idle = 0 }
    ∷ record { now = 170; pending = 20; active = 2; idle = 0 }
    ∷ []

abbrev new_hook : AutoScalingHook
new_hook = record { last_scale_up = none; last_scale_down = none }

ups-Spaced_example : Spaced (pos 60) none (ups scaling new_hook ticks)
ups-Spaced_example = ups-Spaced scaling new_hook ticks

-- An input with two ways to an output.
abbrev pub flow : FlowGraph
flow = record {
  nodes =
      record { id = 1; node_type = "input_source"; config = [] }
      ∷ record { id = 2; node_type = "encode"; config = [] }
      ∷ record { id = 3; node_type = "output"; config = [] }
      ∷ [];
  edges =
      record { id = 11; source = 1; target = 2; source_handle = "" }
      ∷ record { id = 12; source = 1; target = 3; source_handle = "" }
      ∷ record { id = 13; source = 2; target = 3; source_handle = "" }
      ∷ [];
}

validate_flow-IsOrder_example :
    IsOrder flow (1 ∷ 2 ∷ 3 ∷ [])
    × All (λ id. mem id (1 ∷ 2 ∷ 3 ∷ []) ≡ true) (map (λ n. n.id) flow.nodes)
unfolding validate_flow check_edges is_input dfs visit_all mem targets any_of select has_prefix
validate_flow-IsOrder_example = validate_flow-IsOrder flow (1 ∷ 2 ∷ 3 ∷ []) refl

validate_flow-ends_example : is_stuck (validate_flow flow) ≡ false
validate_flow-ends_example = validate_flow-ends flow
