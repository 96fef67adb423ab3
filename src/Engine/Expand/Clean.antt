-- ===== src/Engine/Expand/Clean.antt =====
-- An expansion that fails half-way deletes the tasks that it has made, when the store answers.
use encodeswarmr.Prelude.{
  ℕ, suc, ◌≡◌, refl, sym, ap, subst, inl, inr, String, not, List, [], ◌∷◌, Option, none, some,
  arith, Bool-cases, any_of, count_if, select,
}
use encodeswarmr.Db.Types.{RowId, Task, Job, JobStatus, ChunkBoundary, Source, Db}
use encodeswarmr.Db.Tasks.{
  CreateTaskParams, of_job, delete_tasks_by_job_id, create_task, set_task_script_dir,
}
use encodeswarmr.Db.Jobs.Status.{count_other, count_other-cleared, count_other-none}
use encodeswarmr.Db.Jobs.{has_job_id, update_job_status, update_job_or_missing}
use encodeswarmr.Exec.{
  Exec, Stmt, World, answering, Result, ok, err, Err, pure, call, ignore, or_fail, clean_up,
  outside, ◌>>=◌, continue,
}
use encodeswarmr.Engine.Float.{Float}
use encodeswarmr.Engine.Expand.{Engine, fail_job, create_with_scripts}
use encodeswarmr.Engine.Expand.Encode.{create_chunks}

-- The job has no task, and no row of it has another status than failed.
pub record IsUndone (id : RowId) (db : Db) : Type 0 where
  pub no_tasks : count_if (of_job id) db.tasks ≡ 0
  pub failed : count_other id JobStatus.failed db.jobs ≡ 0

none_left :
    (id : RowId) (ts : List Task) → count_if (of_job id) (select (λ t. not (of_job id t)) ts) ≡ 0
unfolding count_if select
none_left id [] = refl
none_left id (t ∷ ts) = elim (Bool-cases (of_job id t)) [
  | inl e ↦ ground (arith, none_left id ts)
  | inr e ↦ ground (arith, none_left id ts)
]

fail_job-IsUndone : (id : RowId) (w : World) → IsUndone id (fail_job id (answering w)).1.db
unfolding fail_job ignore call ◌>>=◌ delete_tasks_by_job_id update_job_status update_job_or_missing
fail_job-IsUndone id w = elim (Bool-cases (any_of (has_job_id id) w.db.jobs)) [
  | inl e ↦ rw e (record {
    no_tasks = none_left id w.db.tasks;
    failed = count_other-cleared id JobStatus.failed w.now w.db.jobs;
  })
  | inr e ↦ rw e (record {
    no_tasks = none_left id w.db.tasks;
    failed = count_other-none id JobStatus.failed w.db.jobs e;
  })
]

-- After success the store still answers; after an error nothing is left of the job.
abbrev Ends {ℓ} : {A : Type ℓ} → RowId → Result A → World → Type 0
Ends id (ok a) w = w.faults ≡ []
Ends id (err e) w = IsUndone id w.db

record IsClean {ℓ} {A : Type ℓ} (id : RowId) (m : Exec A) : Type ℓ where
  at : (w : World) → let r = m (answering w) in Ends id r.0 r.1

-- `m` leaves the store answering.
record IsSteady {ℓ} {A : Type ℓ} (m : Exec A) : Type ℓ where
  at : (w : World) → (m (answering w)).1.faults ≡ []

as_answering : (w : World) → w.faults ≡ [] → answering w ≡ w
as_answering w h = ap (λ f. record w { faults = f }) (sym h)

module _ {ℓ} {A : Type ℓ} (id : RowId) where
  call-IsSteady : (s : Stmt A) → IsSteady (call s)
  unfolding call
  call-IsSteady s = record { at = λ w. refl }

  outside-IsSteady : (o : Option A) → IsSteady (outside o)
  unfolding outside
  outside-IsSteady none = record { at = λ w. refl }
  outside-IsSteady (some a) = record { at = λ w. refl }

  clean_up-Ends :
      (r : Result A) (w : World)
      → w.faults ≡ []
      → let out = clean_up r (fail_job id) w in Ends id out.0 out.1
  clean_up-Ends (ok a) w h = h
  clean_up-Ends (err e) w h =
      subst (λ v. IsUndone id (fail_job id v).1.db) (as_answering w h) (fail_job-IsUndone id w)

  or_fail-IsClean : (m : Exec A) → IsSteady m → IsClean id (or_fail m (fail_job id))
  unfolding or_fail
  or_fail-IsClean m s = record {
    at = λ w. let (r, w') = m (answering w) in clean_up-Ends r w' (s.at w);
  }

  pure-IsClean : (a : A) → IsClean id (pure a)
  unfolding pure
  pure-IsClean a = record { at = λ w. refl }

module _ {ℓ κ} {A : Type ℓ} {B : Type κ} (id : RowId) where
  continue-Ends :
      (r : Result A) (f : A → Exec B) (w : World)
      → Ends id r w
      → ((a : A) → IsClean id (f a))
      → let out = continue r f w in Ends id out.0 out.1
  continue-Ends (ok a) f w h c =
      subst (λ v. let out = f a v in Ends id out.0 out.1) (as_answering w h) ((c a).at w)
  continue-Ends (err e) f w h c = h

  bind-IsClean :
      (m : Exec A) (f : A → Exec B)
      → IsClean id m
      → ((a : A) → IsClean id (f a))
      → IsClean id (m >>= f)
  unfolding ◌>>=◌
  bind-IsClean m f cm cf = record {
    at = λ w. let (r, w') = m (answering w) in continue-Ends r f w' (cm.at w) cf;
  }

create_with_scripts-IsClean :
    (id : RowId) (p : CreateTaskParams) (scripts : Task → Option String)
    → IsClean id (create_with_scripts id p scripts)
unfolding create_with_scripts
create_with_scripts-IsClean id p scripts =
    bind-IsClean id _ _ (or_fail-IsClean id _ (call-IsSteady id (create_task p))) λ t.
      bind-IsClean id _ _ (or_fail-IsClean id _ (outside-IsSteady id (scripts t)))
        λ d. or_fail-IsClean id _ (call-IsSteady id (set_task_script_dir t.id d))

module _ (fl : Float) (e : Engine fl) (job : Job) (source : Source) where
  create_chunks-IsClean :
      (i : ℕ) (bs : List ChunkBoundary) → IsClean job.id (create_chunks fl e job source i bs)
  unfolding create_chunks
  create_chunks-IsClean i [] = pure-IsClean job.id []
  create_chunks-IsClean i (b ∷ bs) =
      bind-IsClean job.id _ _ (create_with_scripts-IsClean job.id _ _)
        λ _. bind-IsClean job.id _ _ (create_chunks-IsClean (suc i) bs) λ _. pure-IsClean job.id _

  -- If the loop that makes a job's chunk tasks fails, at whatever chunk and for whatever reason,
  -- with a store that answers, then the job is left without any task and its rows have failed.
  pub create_chunks-IsUndone :
      (i : ℕ) (bs : List ChunkBoundary) (w : World) (x : Err)
      → (create_chunks fl e job source i bs (answering w)).0 ≡ err x
      → IsUndone job.id (create_chunks fl e job source i bs (answering w)).1.db
  create_chunks-IsUndone i bs w x h =
      let r = create_chunks fl e job source i bs (answering w) in
      subst (λ o. Ends job.id o r.1) h ((create_chunks-IsClean i bs).at w)
