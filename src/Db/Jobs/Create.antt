-- ===== src/Db/Jobs/Create.antt =====
-- What CreateJob makes of a job and its dependency.
use encodeswarmr.Prelude.{
  ℕ, ◌≡◌, refl, ◌∙◌, inl, inr, ◌⊎◌, Bool, true, false, ◌&&◌, List, [], ◌∷◌, ◌++◌, Option, none,
  some, arith, Bool-cases, Option-cases, find_first, find_first-absent, any_of,
}
use encodeswarmr.Db.Types.{RowId, Job, JobStatus, Db, is_job_status}
use encodeswarmr.Db.Jobs.{
  CreateJobParams, has_job_id, status_allowed, job_type_allowed, not_null, status_column,
  status_after_dependency, get_job_status, initial_status, new_job, refers, insert_job, create_job,
}
use encodeswarmr.Exec.{World, Result, ok, err, Err, pure, call, catch, attempt_with, ◌>>=◌}

-- The insert is refused and changes nothing, or the constraints are met and the row is added.
abbrev Inserted : CreateJobParams → JobStatus → Db → Result Job → Db → Type 0
Inserted p status db a db' =
    ((e : Err) × (a ≡ err e) × (db' ≡ db))
    ⊎ ((j : Job) × (a ≡ ok j)
        × (db'.jobs ≡ db.jobs ++ j ∷ [])
        × (j.status ≡ status)
        × (j.depends_on ≡ p.depends_on)
        × (status_allowed status ≡ true)
        × (refers p db ≡ true))

insert_job-Inserted :
    (p : CreateJobParams) (status : JobStatus) (now : ℕ) (db : Db)
    → let r = insert_job p status now db in Inserted p status db r.0 r.1
unfolding insert_job new_job
insert_job-Inserted p status now db =
    elim (Bool-cases
      (status_allowed status && job_type_allowed p.job_type && not_null p.target_tags)) [
        | inr e ↦ rw e (inl (_, refl, refl))
        | inl e ↦ elim (Bool-cases (refers p db)) [
          | inr r ↦ rw (e, r) (inl (_, refl, refl))
          | inl r ↦
              let s : status_allowed status ≡ true = ground arith in
              rw (e, r) (inr (_, refl, refl, refl, refl, s, refl))
        ]
      ]

attempt-Inserted :
    (p : CreateJobParams) (status : JobStatus) (faults : List Bool) (w : World)
    → let r = attempt_with (insert_job p status) faults w in Inserted p status w.db r.0 r.1.db
attempt-Inserted p status [] w = insert_job-Inserted p status w.now w.db
attempt-Inserted p status (true ∷ rest) w = inl (_, refl, refl)
attempt-Inserted p status (false ∷ rest) w = insert_job-Inserted p status w.now w.db

-- There is no dependency, or it is completed, or its lookup fails.
abbrev pub IsReady : Option RowId → List Bool → Db → Type 0
IsReady none faults db = Unit
IsReady (some dep) faults db =
    ((j : Job) × (find_first (has_job_id dep) db.jobs ≡ some j)
      × (is_job_status j.status JobStatus.completed ≡ true))
    ⊎ ((rest : List Bool) × (faults ≡ true ∷ rest))

-- An error that changes nothing, or a queued job behind the others, whose dependency is no obstacle.
abbrev pub Creates : CreateJobParams → World → Result Job → Db → Type 0
Creates p w a db' =
    ((e : Err) × (a ≡ err e) × (db' ≡ w.db))
    ⊎ ((j : Job) × (a ≡ ok j)
        × (db'.jobs ≡ w.db.jobs ++ j ∷ [])
        × (j.status ≡ JobStatus.queued)
        × (j.depends_on ≡ p.depends_on)
        × IsReady p.depends_on w.faults w.db)

Inserted-Creates :
    (p : CreateJobParams) (w : World) (status : JobStatus) (a : Result Job) (db' : Db)
    → (status_allowed status ≡ true
        → refers p w.db ≡ true
        → (status ≡ JobStatus.queued) × IsReady p.depends_on w.faults w.db)
    → Inserted p status w.db a db'
    → Creates p w a db'
Inserted-Creates p w status a db' k (inl f) = inl f
Inserted-Creates p w status a db' k (inr (j, o, rows, s, d, t, r)) =
    let (q, ready) = k t r in inr (j, o, rows, s ∙ q, d, ready)

-- After a lookup that is answered, a status that the table allows means a completed dependency.
completed_dependency :
    (dep : RowId) (jobs : List Job)
    → let status = status_after_dependency (status_column (find_first (has_job_id dep) jobs)) in
      status_allowed status ≡ true
      → any_of (has_job_id dep) jobs ≡ true
      → (status ≡ JobStatus.queued)
        × ((j : Job) × (find_first (has_job_id dep) jobs ≡ some j)
            × (is_job_status j.status JobStatus.completed ≡ true))
completed_dependency dep jobs = elim (Option-cases (find_first (has_job_id dep) jobs)) [
  | inl e ↦ λ t r. absurd (ground (arith, find_first-absent (has_job_id dep) jobs e))
  | inr (j, e) ↦ elim (Bool-cases (is_job_status j.status JobStatus.completed)) [
    | inl c ↦ rw (e, c) (λ t r. (refl, (j, refl, c)))
    | inr c ↦ rw (e, c) (λ t r. absurd (ground arith))
  ]
]

module _ (p : CreateJobParams) (dep : RowId) (w : World) where
  abbrev answered_status : JobStatus
  answered_status = status_after_dependency (status_column (find_first (has_job_id dep) w.db.jobs))

  answered-IsReady :
      (faults : List Bool)
      → status_allowed answered_status ≡ true
      → refers (record p { depends_on = some dep }) w.db ≡ true
      → (answered_status ≡ JobStatus.queued) × IsReady (some dep) faults w.db
  answered-IsReady faults t r =
      let (q, ready) = completed_dependency dep w.db.jobs t (ground arith) in (q, inl ready)

create-at :
    (p : CreateJobParams) (dep : Option RowId) (faults : List Bool) (w : World)
    → let r = create_job (record p { depends_on = dep }) (record w { faults = faults }) in
      Creates (record p { depends_on = dep }) (record w { faults = faults }) r.0 r.1.db
unfolding create_job initial_status get_job_status call catch pure ◌>>=◌
create-at p none faults w =
    let q = record p { depends_on = none } in
    Inserted-Creates q (record w { faults = faults }) JobStatus.queued _ _ (λ t r. (refl, tt))
      (attempt-Inserted q JobStatus.queued faults (record w { faults = faults }))
create-at p (some dep) [] w =
    let q = record p { depends_on = some dep } in
    Inserted-Creates q (record w { faults = [] }) (answered_status p dep w) _ _
      (answered-IsReady p dep w [])
      (attempt-Inserted q (answered_status p dep w) [] (record w { faults = [] }))
create-at p (some dep) (true ∷ rest) w =
    let q = record p { depends_on = some dep } in
    Inserted-Creates q (record w { faults = (true ∷ rest) }) JobStatus.queued _ _
      (λ t r. (refl, inr (rest, refl)))
      (attempt-Inserted q JobStatus.queued rest (record w { faults = rest }))
create-at p (some dep) (false ∷ rest) w =
    let q = record p { depends_on = some dep } in
    Inserted-Creates q (record w { faults = (false ∷ rest) }) (answered_status p dep w) _ _
      (answered-IsReady p dep w (false ∷ rest))
      (attempt-Inserted q (answered_status p dep w) rest (record w { faults = rest }))

-- CreateJob, whichever store calls fail, gives an error and changes nothing, or adds one job behind
-- the others. That job is queued, never waiting; and if it depends on a job, then that one is
-- completed or its lookup has failed.
pub create_job-Creates :
    (p : CreateJobParams) (w : World) → Creates p w (create_job p w).0 (create_job p w).1.db
create_job-Creates p w = create-at p p.depends_on w.faults w
