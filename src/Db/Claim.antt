-- ===== src/Db/Claim.antt =====
-- internal/db/queries.go, ClaimNextTask: the next pending task for an agent. The statement is
-- atomic, so its row lock is not modelled; rows that rank alike are taken in table order.
pub mod Order
pub mod Laws
pub mod Once
use text.Mathlib.Text.{◌==◌ as str_eq}
use encodeswarmr.Prelude.{
  ℕ, ℤ, ltbℤ, String, Bool, true, false, not, ◌&&◌, ◌||◌, List, [], ◌∷◌, Option, none, some, ltb,
  leb, ◌==◌, if◌then◌else◌, find_first, any_of, update_where,
}
use encodeswarmr.Db.Types.{
  RowId, Task, TaskStatus, TaskType, Job, JobStatus, Db, is_status, is_job_status, is_task_type,
}
use encodeswarmr.Exec.{Stmt, Result, ok}
use encodeswarmr.Db.Tasks.{has_id}

-- JOIN jobs j ON j.id = t.job_id
unfoldable pub job_of : List Job → Task → Option Job
job_of jobs t = find_first (λ j. j.id == t.job_id) jobs

abbrev pub is_empty {ℓ} : {A : Type ℓ} → List A → Bool
is_empty [] = true
is_empty (x ∷ xs) = false

-- j.target_tags && $2
unfoldable pub overlaps : List String → List String → Bool
overlaps [] ys = false
overlaps (x ∷ xs) ys = any_of (str_eq x) ys || overlaps xs ys

-- j.status IN ('queued', 'running')
abbrev pub is_claimable_job : Job → Bool
is_claimable_job j =
    is_job_status j.status JobStatus.queued || is_job_status j.status JobStatus.running

abbrev pub accepts_tags : Job → List String → Bool
accepts_tags j tags = is_empty j.target_tags || overlaps j.target_tags tags

abbrev pub backoff_over : ℕ → Option ℕ → Bool
backoff_over now none = true
backoff_over now (some t) = leb t now

abbrev pub job_accepts : List String → Option Job → Bool
job_accepts tags none = false
job_accepts tags (some j) = is_claimable_job j && accepts_tags j tags

-- The WHERE clause.
unfoldable pub eligible : ℕ → List String → List Job → Task → Bool
unfolding job_of
eligible now tags jobs t =
    is_status t.status TaskStatus.pending
    && job_accepts tags (job_of jobs t)
    && not (is_task_type t.task_type TaskType.concat)
    && backoff_over now t.retry_after

-- ORDER BY j.priority DESC, j.created_at ASC, t.chunk_index ASC: strictly before.
abbrev pub ranks_before : ℤ → ℕ → ℕ → ℤ → ℕ → ℕ → Bool
ranks_before p c i p' c' i' =
    if ltbℤ p' p
    then true
    else if ltbℤ p p'
    then false
    else if ltb c c'
    then true
    else if ltb c' c
    then false
    else ltb i i'

abbrev pub job_priority : Option Job → ℤ
job_priority none = ℤ.pos 0
job_priority (some j) = j.priority

abbrev pub job_created : Option Job → ℕ
job_created none = 0
job_created (some j) = j.created_at

unfoldable pub before : List Job → Task → Task → Bool
before jobs t u =
    ranks_before (job_priority (job_of jobs t)) (job_created (job_of jobs t)) t.chunk_index
      (job_priority (job_of jobs u)) (job_created (job_of jobs u)) u.chunk_index

abbrev pub best_of : List Job → Task → Option Task → Task
best_of jobs t none = t
best_of jobs t (some u) = if before jobs u t then u else t

-- LIMIT 1
unfoldable pub next_task : ℕ → List String → List Job → List Task → Option Task
next_task now tags jobs [] = none
next_task now tags jobs (t ∷ ts) =
    let rest = next_task now tags jobs ts in
    if eligible now tags jobs t then some (best_of jobs t rest) else rest

abbrev pub to_assigned : RowId → ℕ → Task → Task
to_assigned agent_id now t = record t {
  status = TaskStatus.assigned;
  agent_id = some agent_id;
  started_at = some now;
}

abbrev pub claim : RowId → ℕ → Option Task → Db → Result (Option Task) × Db
claim agent_id now none db = (ok none, db)
claim agent_id now (some t) db = (
  ok (some (to_assigned agent_id now t)),
  record db { tasks = update_where (has_id t.id) (to_assigned agent_id now) db.tasks },
)

-- `none` is no work available.
unfoldable pub claim_next_task : RowId → List String → Stmt (Option Task)
claim_next_task agent_id tags now db = claim agent_id now (next_task now tags db.jobs db.tasks) db
