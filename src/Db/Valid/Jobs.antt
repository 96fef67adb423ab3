-- ===== src/Db/Valid/Jobs.antt =====
-- The statements on jobs and on the other tables keep the tables valid.
use encodeswarmr.Prelude.{
  ℕ, suc, ◌≡◌, refl, inl, inr, Bool, true, false, List, [], ◌∷◌, ◌++◌, Option, none, some, arith,
  Bool-cases, All, All-append, All-update_where, Distinct-append_one, Distinct-update_where, any_of,
  update_where, ℤ,
}
use encodeswarmr.Db.Types.{RowId, Job, JobStatus, Db}
use encodeswarmr.Exec.Keeps.{StmtKeeps, Keeps, Keeps-pure, keeps_rules}
use encodeswarmr.Db.Jobs.{
  CreateJobParams, not_null, has_job_id, status_allowed, job_type_allowed, initial_status, refers,
  insert_job, get_job_status, create_job, get_job_by_id, get_jobs_needing_expansion,
  list_pending_jobs, update_job_or_missing, with_job_status, update_job_status, update_job_priority,
  with_counts, update_job_task_counts, unblock_dependent_jobs, waits_for,
}
use encodeswarmr.Db.IsValid.{IsValid, IsRow, same_job_id}
use encodeswarmr.Db.Valid.Tasks.{All-rows, All-given, IsAgentTable-suc, IsSourceTable-suc}

fresh_job :
    (n : RowId) (j : Job) (js : List Job)
    → j.id ≡ n
    → All (IsRow n) js
    → any_of (same_job_id j) js ≡ false
unfolding any_of
fresh_job n j [] e h = refl
fresh_job n j (k ∷ ks) e h = ground (arith, fresh_job n j ks e h.1)

-- An update of jobs that leaves the identifiers alone, and the other columns within their checks.
update_jobs-IsValid :
    (p : Job → Bool) (f : Job → Job) (db : Db)
    → ((j : Job) → (f j).id ≡ j.id)
    → ((j : Job) → IsRow db.next_id j → IsRow db.next_id (f j))
    → IsValid db
    → IsValid (record db { jobs = update_where p f db.jobs })
update_jobs-IsValid p f db same rows v = record {
  task_ids_given = v.task_ids_given;
  task_ids_distinct = v.task_ids_distinct;
  slots_distinct = v.slots_distinct;
  jobs_rows = All-update_where (IsRow db.next_id) p f db.jobs (λ j _ h. rows j h) v.jobs_rows;
  job_ids_distinct =
      Distinct-update_where same_job_id p f db.jobs (λ a b. rw (same a)) (λ a b. rw (same b))
        v.job_ids_distinct;
  agent_table = v.agent_table;
  source_table = v.source_table;
}

update_job_or_missing-IsValid :
    (id : RowId) (f : Job → Job) (db : Db)
    → ((j : Job) → (f j).id ≡ j.id)
    → ((j : Job) → IsRow db.next_id j → IsRow db.next_id (f j))
    → IsValid db
    → IsValid (update_job_or_missing id f db).1
unfolding update_job_or_missing
update_job_or_missing-IsValid id f db same rows v =
    elim (Bool-cases (any_of (has_job_id id) db.jobs)) [
      | inl e ↦ rw e (update_jobs-IsValid (has_job_id id) f db same rows v)
      | inr e ↦ rw e v
    ]

-- A job whose columns pass the checks.
insert_job-IsValid :
    (j : Job) (db : Db)
    → j.id ≡ db.next_id
    → status_allowed j.status ≡ true
    → job_type_allowed j.job_type ≡ true
    → IsValid db
    → IsValid (record db { jobs = db.jobs ++ j ∷ []; next_id = suc db.next_id })
insert_job-IsValid j db e s t v = record {
  task_ids_given = All-given db.next_id db.tasks v.task_ids_given;
  task_ids_distinct = v.task_ids_distinct;
  slots_distinct = v.slots_distinct;
  jobs_rows =
      All-append (IsRow (suc db.next_id)) db.jobs (j ∷ []) (All-rows db.next_id db.jobs v.jobs_rows)
        ((omega arith, s, t), tt);
  job_ids_distinct =
      Distinct-append_one same_job_id db.jobs j (λ a b. ground arith)
        (fresh_job db.next_id j db.jobs e v.jobs_rows) v.job_ids_distinct;
  agent_table = IsAgentTable-suc db.next_id db.agents v.agent_table;
  source_table = IsSourceTable-suc db.next_id db.sources v.source_table;
}

insert_job-at :
    (p : CreateJobParams) (status : JobStatus) (now : ℕ) (db : Db)
    → IsValid db
    → IsValid (insert_job p status now db).1
unfolding insert_job
insert_job-at p status now db v = elim (Bool-cases (status_allowed status)) [
  | inr s ↦ rw s v
  | inl s ↦ elim (Bool-cases (job_type_allowed p.job_type)) [
    | inr t ↦ rw (s, t) v
    | inl t ↦ elim (Bool-cases (not_null p.target_tags)) [
      | inr g ↦ rw (s, t, g) v
      | inl g ↦ elim (Bool-cases (refers p db)) [
        | inl r ↦ rw (s, t, g, r) (insert_job-IsValid _ db refl s t v)
        | inr r ↦ rw (s, t, g, r) v
      ]
    ]
  ]
]

insert_job-keeps : (p : CreateJobParams) (s : JobStatus) → StmtKeeps IsValid (insert_job p s)
insert_job-keeps p s = record { at = insert_job-at p s }

get_job_status-keeps : (id : RowId) → StmtKeeps IsValid (get_job_status id)
unfolding get_job_status
get_job_status-keeps id = record { at = λ now db v. v }

initial_status-Keeps : (o : Option RowId) → Keeps IsValid (initial_status o)
unfolding initial_status
initial_status-Keeps none = Keeps-pure JobStatus.queued
initial_status-Keeps (some dep) = search (keeps_rules, get_job_status-keeps) depth 8

pub create_job-Keeps : (p : CreateJobParams) → Keeps IsValid (create_job p)
unfolding create_job
create_job-Keeps p = search (keeps_rules, initial_status-Keeps, insert_job-keeps) depth 8

pub get_job_by_id-keeps : (id : RowId) → StmtKeeps IsValid (get_job_by_id id)
unfolding get_job_by_id
get_job_by_id-keeps id = record { at = λ now db v. v }

pub get_jobs_needing_expansion-keeps : StmtKeeps IsValid get_jobs_needing_expansion
unfolding get_jobs_needing_expansion
get_jobs_needing_expansion-keeps = record { at = λ now db v. v }

pub list_pending_jobs-keeps : StmtKeeps IsValid list_pending_jobs
unfolding list_pending_jobs
list_pending_jobs-keeps = record { at = λ now db v. v }

with_job_status-IsRow :
    (n : RowId) (s : JobStatus) (now : ℕ) (j : Job)
    → status_allowed s ≡ true
    → IsRow n j
    → IsRow n (with_job_status s now j)
with_job_status-IsRow n JobStatus.waiting now j e h = cc
with_job_status-IsRow n JobStatus.completed now j e h = (h.0, e, h.2)
with_job_status-IsRow n JobStatus.failed now j e h = (h.0, e, h.2)
with_job_status-IsRow n s now j e h = (h.0, e, h.2)

with_job_status-id : (s : JobStatus) (now : ℕ) (j : Job) → (with_job_status s now j).id ≡ j.id
with_job_status-id JobStatus.completed now j = refl
with_job_status-id JobStatus.failed now j = refl
with_job_status-id s now j = refl

pub update_job_status-keeps :
    (id : RowId) (s : JobStatus)
    → status_allowed s ≡ true
    → StmtKeeps IsValid (update_job_status id s)
unfolding update_job_status
update_job_status-keeps id s e = record {
  at = λ now db v.
      update_job_or_missing-IsValid id (with_job_status s now) db (with_job_status-id s now)
        (λ j h. with_job_status-IsRow db.next_id s now j e h) v;
}

pub update_job_priority-keeps : (id : RowId) (p : ℤ) → StmtKeeps IsValid (update_job_priority id p)
unfolding update_job_priority
update_job_priority-keeps id p = record {
  at = λ now db v. update_job_or_missing-IsValid id _ db (λ j. refl) (λ j h. h) v;
}

pub update_job_task_counts-keeps : (id : RowId) → StmtKeeps IsValid (update_job_task_counts id)
unfolding update_job_task_counts
update_job_task_counts-keeps id = record {
  at = λ now db v.
      update_jobs-IsValid (has_job_id id) (with_counts db.tasks) db (λ j. refl) (λ j h. h) v;
}

pub unblock_dependent_jobs-keeps : (id : RowId) → StmtKeeps IsValid (unblock_dependent_jobs id)
unfolding unblock_dependent_jobs
unblock_dependent_jobs-keeps id = record {
  at = λ now db v. update_jobs-IsValid (waits_for id) _ db (λ j. refl) (λ j h. (h.0, refl, h.2)) v;
}

pub ruleset job_keeps = (
  create_job-Keeps, get_job_by_id-keeps, get_jobs_needing_expansion-keeps, list_pending_jobs-keeps,
  update_job_status-keeps, update_job_priority-keeps, update_job_task_counts-keeps,
  unblock_dependent_jobs-keeps,
)
