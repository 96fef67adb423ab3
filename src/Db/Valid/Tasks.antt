-- ===== src/Db/Valid/Tasks.antt =====
-- The statements on tasks keep the tables valid.
use encodeswarmr.Prelude.{
  ℕ, suc, ◌<◌, ◌≡◌, ◌==◌, refl, inl, inr, Bool, false, List, [], ◌∷◌, Option, none, some, arith,
  Bool-cases, All, All-append, All-select, All-update_where, Distinct-append_one, Distinct-select,
  Distinct-update_where, any_of, update_where, find_first, ℤ, String,
}
use encodeswarmr.Db.Types.{RowId, Task, TaskStatus, Job, Agent, Source, Db}
use encodeswarmr.Exec.Keeps.{StmtKeeps}
use encodeswarmr.Db.Tasks.{
  CreateTaskParams, CompleteTaskParams, same_slot, insert_row, insert_task, create_task,
  get_task_by_id, list_tasks_by_job, update_or_missing, update_all, claim_concat_task,
  update_task_status, set_task_script_dir, complete_task, fail_task, cancel_pending_tasks_for_job,
  delete_tasks_by_job_id, retry_failed_tasks_for_job, preempt_task, reset_task, to_running,
  to_completed, to_failed, to_retried, to_preempted, to_reset, has_id,
}
use encodeswarmr.Db.Retry.{
  retry_row, insert_retry, retry_task_with_backoff, retry_task_with_backoff_jitter,
}
use encodeswarmr.Db.Claim.{claim_next_task, next_task, to_assigned, claim}
use encodeswarmr.Db.IsValid.{IsValid, IsAgentTable, IsSourceTable, IsRow, same_task_id}

-- The tables of agents and of sources stay as they are when an identifier is given out.
pub All-below {ℓ} :
    {A : Type ℓ} (id_of : A → RowId) (n : RowId) (xs : List A)
    → All (λ x. id_of x < n) xs
    → All (λ x. id_of x < suc n) xs
All-below id_of n [] h = tt
All-below id_of n (x ∷ xs) h = (omega arith, All-below id_of n xs h.1)

pub IsAgentTable-suc :
    (n : RowId) (agents : List Agent) → IsAgentTable n agents → IsAgentTable (suc n) agents
IsAgentTable-suc n agents t = record {
  given = All-below (λ a. a.id) n agents t.given;
  ids_distinct = t.ids_distinct;
  names_distinct = t.names_distinct;
}

pub IsSourceTable-suc :
    (n : RowId) (sources : List Source) → IsSourceTable n sources → IsSourceTable (suc n) sources
IsSourceTable-suc n sources t = record {
  given = All-below (λ s. s.id) n sources t.given;
  ids_distinct = t.ids_distinct;
  paths_distinct = t.paths_distinct;
}

pub All-given : (n : RowId) (ts : List Task) → All (λ t. t.id < n) ts → All (λ t. t.id < suc n) ts
All-given n [] h = tt
All-given n (t ∷ ts) h = (omega arith, All-given n ts h.1)

pub All-rows : (n : RowId) (js : List Job) → All (IsRow n) js → All (IsRow (suc n)) js
All-rows n [] h = tt
All-rows n (j ∷ js) h = ((omega arith, h.0.1, h.0.2), All-rows n js h.1)

fresh : (t : Task) (ts : List Task) → All (λ u. u.id < t.id) ts → any_of (same_task_id t) ts ≡ false
unfolding any_of
fresh t [] h = refl
fresh t (u ∷ us) h = ground (arith, fresh t us h.1)

-- An insert of a row under a new identifier keeps the tables valid, or is refused.
pub insert_row-IsValid :
    (t : Task) (db : Db) → t.id ≡ db.next_id → IsValid db → IsValid (insert_row t db).1
unfolding insert_row
insert_row-IsValid t db e v = elim (Bool-cases (any_of (same_slot t) db.tasks)) [
  | inl taken ↦ rw taken v
  | inr free ↦ rw free (record {
    task_ids_given =
        All-append (λ u. u.id < suc db.next_id) db.tasks (t ∷ [])
          (All-given db.next_id db.tasks v.task_ids_given) (omega arith, tt);
    task_ids_distinct =
        Distinct-append_one same_task_id db.tasks t (λ a b. ground arith)
          (fresh t db.tasks (rw e v.task_ids_given)) v.task_ids_distinct;
    slots_distinct =
        Distinct-append_one same_slot db.tasks t (λ a b. ground arith) free v.slots_distinct;
    jobs_rows = All-rows db.next_id db.jobs v.jobs_rows;
    job_ids_distinct = v.job_ids_distinct;
    agent_table = IsAgentTable-suc db.next_id db.agents v.agent_table;
    source_table = IsSourceTable-suc db.next_id db.sources v.source_table;
  })
]

pub insert_task-IsValid :
    (t : Task) (db : Db) → t.id ≡ db.next_id → IsValid db → IsValid (insert_task t db).1
unfolding insert_task
insert_task-IsValid t db e v = elim (Bool-cases (any_of (λ j. j.id == t.job_id) db.jobs)) [
  | inl k ↦ rw k (insert_row-IsValid t db e v)
  | inr k ↦ rw k v
]

-- An update that leaves the keys alone.
pub record KeepsKeys (f : Task → Task) : Type 0 where
  pub id_kept : (t : Task) → (f t).id ≡ t.id
  pub job_kept : (t : Task) → (f t).job_id ≡ t.job_id
  pub chunk_kept : (t : Task) → (f t).chunk_index ≡ t.chunk_index

pub update_where-IsValid :
    (p : Task → Bool) (f : Task → Task) (db : Db)
    → KeepsKeys f
    → IsValid db
    → IsValid (record db { tasks = update_where p f db.tasks })
update_where-IsValid p f db k v = record {
  task_ids_given =
      All-update_where (λ t. t.id < db.next_id) p f db.tasks (λ t _ h. rw (k.id_kept t) h)
        v.task_ids_given;
  task_ids_distinct =
      Distinct-update_where same_task_id p f db.tasks (λ a b. rw (k.id_kept a))
        (λ a b. rw (k.id_kept b)) v.task_ids_distinct;
  slots_distinct =
      Distinct-update_where same_slot p f db.tasks (λ a b. rw (k.job_kept a, k.chunk_kept a))
        (λ a b. rw (k.job_kept b, k.chunk_kept b)) v.slots_distinct;
  jobs_rows = v.jobs_rows;
  job_ids_distinct = v.job_ids_distinct;
  agent_table = v.agent_table;
  source_table = v.source_table;
}

update_or_missing-IsValid :
    (p : Task → Bool) (f : Task → Task) (db : Db)
    → KeepsKeys f
    → IsValid db
    → IsValid (update_or_missing p f db).1
unfolding update_or_missing
update_or_missing-IsValid p f db k v = elim (Bool-cases (any_of p db.tasks)) [
  | inl e ↦ rw e (update_where-IsValid p f db k v)
  | inr e ↦ rw e v
]

pub create_task-keeps : (p : CreateTaskParams) → StmtKeeps IsValid (create_task p)
unfolding create_task
create_task-keeps p = record { at = λ now db v. insert_task-IsValid _ db refl v }

pub get_task_by_id-keeps : (id : RowId) → StmtKeeps IsValid (get_task_by_id id)
unfolding get_task_by_id
get_task_by_id-keeps id = record { at = λ now db v. v }

pub list_tasks_by_job-keeps : (id : RowId) → StmtKeeps IsValid (list_tasks_by_job id)
unfolding list_tasks_by_job
list_tasks_by_job-keeps id = record { at = λ now db v. v }

pub claim_concat_task-keeps : (id : RowId) → StmtKeeps IsValid (claim_concat_task id)
unfolding claim_concat_task
claim_concat_task-keeps id = record {
  at = λ now db v. update_or_missing-IsValid _ (to_running now) db (omega arith) v;
}

pub update_task_status-keeps :
    (id : RowId) (s : TaskStatus) → StmtKeeps IsValid (update_task_status id s)
unfolding update_task_status
update_task_status-keeps id s = record {
  at = λ now db v. update_or_missing-IsValid _ _ db (omega arith) v;
}

pub set_task_script_dir-keeps :
    (id : RowId) (dir : String) → StmtKeeps IsValid (set_task_script_dir id dir)
unfolding set_task_script_dir
set_task_script_dir-keeps id dir = record {
  at = λ now db v. update_or_missing-IsValid _ _ db (omega arith) v;
}

pub complete_task-keeps : (p : CompleteTaskParams) → StmtKeeps IsValid (complete_task p)
unfolding complete_task update_all
complete_task-keeps p = record {
  at = λ now db v. update_where-IsValid _ (to_completed p now) db (omega arith) v;
}

pub fail_task-keeps : (id : RowId) (c : ℤ) (msg : String) → StmtKeeps IsValid (fail_task id c msg)
unfolding fail_task update_all
fail_task-keeps id c msg = record {
  at = λ now db v. update_where-IsValid _ (to_failed c msg now) db (omega arith) v;
}

pub cancel_pending_tasks_for_job-keeps :
    (id : RowId) → StmtKeeps IsValid (cancel_pending_tasks_for_job id)
unfolding cancel_pending_tasks_for_job update_all
cancel_pending_tasks_for_job-keeps id = record {
  at = λ now db v. update_where-IsValid _ _ db (omega arith) v;
}

pub retry_failed_tasks_for_job-keeps :
    (id : RowId) → StmtKeeps IsValid (retry_failed_tasks_for_job id)
unfolding retry_failed_tasks_for_job update_all
retry_failed_tasks_for_job-keeps id = record {
  at = λ now db v. update_where-IsValid _ to_retried db (omega arith) v;
}

pub preempt_task-keeps : (id : RowId) → StmtKeeps IsValid (preempt_task id)
unfolding preempt_task
preempt_task-keeps id = record {
  at = λ now db v. update_or_missing-IsValid _ (to_preempted now) db (omega arith) v;
}

pub reset_task-keeps : (id : RowId) → StmtKeeps IsValid (reset_task id)
unfolding reset_task
reset_task-keeps id = record {
  at = λ now db v. update_or_missing-IsValid _ to_reset db (omega arith) v;
}

pub delete_tasks_by_job_id-keeps : (id : RowId) → StmtKeeps IsValid (delete_tasks_by_job_id id)
unfolding delete_tasks_by_job_id
delete_tasks_by_job_id-keeps id = record {
  at = λ now db v. record {
    task_ids_given = All-select (λ t. t.id < db.next_id) _ db.tasks v.task_ids_given;
    task_ids_distinct = Distinct-select same_task_id _ db.tasks v.task_ids_distinct;
    slots_distinct = Distinct-select same_slot _ db.tasks v.slots_distinct;
    jobs_rows = v.jobs_rows;
    job_ids_distinct = v.job_ids_distinct;
    agent_table = v.agent_table;
    source_table = v.source_table;
  };
}

-- The successor of a failed task gets a new identifier.
insert_retry-IsValid :
    (o : Option Task) (n after : ℕ) (db : Db) → IsValid db → IsValid (insert_retry o n after db).1
unfolding retry_row
insert_retry-IsValid none n after db v = v
insert_retry-IsValid (some t) n after db v = insert_row-IsValid _ db refl v

pub retry_task_with_backoff-keeps :
    (id : RowId) (n : ℕ) → StmtKeeps IsValid (retry_task_with_backoff id n)
unfolding retry_task_with_backoff
retry_task_with_backoff-keeps id n = record {
  at = λ now db v. insert_retry-IsValid (find_first (has_id id) db.tasks) _ _ db v;
}

pub retry_task_with_backoff_jitter-keeps :
    (id : RowId) (n jitter : ℕ) → StmtKeeps IsValid (retry_task_with_backoff_jitter id n jitter)
unfolding retry_task_with_backoff_jitter
retry_task_with_backoff_jitter-keeps id n jitter = record {
  at = λ now db v. insert_retry-IsValid (find_first (has_id id) db.tasks) _ _ db v;
}

claim-IsValid :
    (agent_id now : ℕ) (o : Option Task) (db : Db)
    → IsValid db
    → IsValid (claim agent_id now o db).1
claim-IsValid agent_id now none db v = v
claim-IsValid agent_id now (some t) db v =
    update_where-IsValid (has_id t.id) (to_assigned agent_id now) db (omega arith) v

pub claim_next_task-keeps :
    (agent_id : RowId) (tags : List String) → StmtKeeps IsValid (claim_next_task agent_id tags)
unfolding claim_next_task
claim_next_task-keeps agent_id tags = record {
  at = λ now db v. claim-IsValid agent_id now (next_task now tags db.jobs db.tasks) db v;
}

pub ruleset task_keeps = (
  create_task-keeps, get_task_by_id-keeps, list_tasks_by_job-keeps, claim_concat_task-keeps,
  update_task_status-keeps, set_task_script_dir-keeps, complete_task-keeps, fail_task-keeps,
  cancel_pending_tasks_for_job-keeps, retry_failed_tasks_for_job-keeps, preempt_task-keeps,
  reset_task-keeps, delete_tasks_by_job_id-keeps, retry_task_with_backoff-keeps,
  retry_task_with_backoff_jitter-keeps, claim_next_task-keeps,
)
