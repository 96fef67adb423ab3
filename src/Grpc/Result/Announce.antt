-- ===== src/Grpc/Result/Announce.antt =====
-- When a job is announced as finished.
use encodeswarmr.Prelude.{
  ℕ, zero, suc, ◌≡◌, refl, ◌⊎◌, ◌≢◌, inl, inr, Bool, true, Bool-cases, false, ◌&&◌, ◌||◌, List, [],
  ◌∷◌, Option, none, some, arith, ltb, ◌==◌, String, ℤ, find_first, length,
}
use encodeswarmr.Db.Types.{RowId, Task, TaskType, TaskLog, Job, JobStatus}
use encodeswarmr.Db.Jobs.{has_job_id, get_job_by_id}
use encodeswarmr.Exec.{
  Exec, World, Result, ok, err, Err, Event, Goroutine, call, or_internal, answering, ◌>>=◌,
}
use encodeswarmr.Exec.Quiet.{
  IsQuiet, Announces, quiet_rules, IsQuiet-call, IsQuiet-pure, IsQuiet-raise, IsQuiet-spawn,
  IsQuiet-if, IsQuiet-option, IsQuiet-bind, Announces-quiet, Announces-if, Announces-option,
  Announces-emit, Announces-bind,
}
use encodeswarmr.Grpc.Server.{Server}
use encodeswarmr.Grpc.Hdr.{
  is_sentinel, store_hdr, on_page, scan_pages, extract_from, extract_hdr_result, page_size, last_id,
}
use encodeswarmr.Grpc.Result.{
  final_status, finish_job, on_claim, start_or_skip, with_pending, pending_of_type, check_vmaf,
  check_concat, check_job_completion,
}

store_hdr-IsQuiet : (id : RowId) (o : Option (String × ℤ)) → IsQuiet (store_hdr id o)
store_hdr-IsQuiet id none = IsQuiet-pure tt
store_hdr-IsQuiet id (some (h, p)) = IsQuiet-call _

on_page-IsQuiet :
    (s : Server) (job : Job) (logs : List TaskLog) (more : Exec (Unit {0}))
    → IsQuiet more
    → IsQuiet (on_page s job logs more)
on_page-IsQuiet s job logs more q =
    IsQuiet-option (find_first is_sentinel logs) _ _ (λ l. store_hdr-IsQuiet job.source_id _)
      (IsQuiet-if (ltb (length logs) page_size) _ _ (IsQuiet-pure tt) q)

scan_pages-IsQuiet :
    (s : Server) (job : Job) (id : RowId) (fuel cursor : ℕ)
    → IsQuiet (scan_pages s job id fuel cursor)
unfolding scan_pages
scan_pages-IsQuiet s job id zero cursor = IsQuiet-pure tt
scan_pages-IsQuiet s job id (suc fuel) cursor =
    IsQuiet-bind _ _ (IsQuiet-call _)
      λ logs. on_page-IsQuiet s job logs _ (scan_pages-IsQuiet s job id fuel (last_id cursor logs))

extract_from-IsQuiet : (s : Server) (job : Job) (ts : List Task) → IsQuiet (extract_from s job ts)
extract_from-IsQuiet s job [] = record { at = λ w. refl }
extract_from-IsQuiet s job (t ∷ ts) = record {
  at = λ w. (scan_pages-IsQuiet s job t.id (suc (length w.db.logs)) 0).at w;
}

extract_hdr_result-IsQuiet : (s : Server) (job : Job) → IsQuiet (extract_hdr_result s job)
unfolding extract_hdr_result
extract_hdr_result-IsQuiet s job = search (quiet_rules, extract_from-IsQuiet) depth 8

-- The announcement of a job that has no task pending or running: as completed if it counts no
-- failed task, and as failed if it counts one.
pub record IsFinal (id : RowId) (job : Job) (e : Event) : Type 0 where
  pub status : JobStatus
  pub event : e ≡ Event.job_event status id job.tasks_completed job.tasks_failed
  pub agrees :
      ((job.tasks_failed ≡ 0) × (status ≡ JobStatus.completed))
      ⊎ ((job.tasks_failed ≢ 0) × (status ≡ JobStatus.failed))
  pub none_pending : job.tasks_pending ≡ 0
  pub none_running : job.tasks_running ≡ 0

final_status-agrees :
    (job : Job)
    → ((job.tasks_failed ≡ 0) × (final_status job ≡ JobStatus.completed))
      ⊎ ((job.tasks_failed ≢ 0) × (final_status job ≡ JobStatus.failed))
final_status-agrees job = elim (Bool-cases (ltb 0 job.tasks_failed)) [
  | inl e ↦ inr (λ z. ground arith, rw e refl)
  | inr e ↦ inl (ground arith, rw e refl)
]

idle_counts : (p r : ℕ) → (ltb 0 p || ltb 0 r) ≡ false → (p ≡ 0) × (r ≡ 0)
idle_counts p r h = ground arith

finish_job-Announces :
    (s : Server) (id : RowId) (job : Job) → Announces (IsFinal id job) (finish_job s id job)
unfolding finish_job
finish_job-Announces s id job =
    Announces-if _ (ltb 0 job.tasks_pending || ltb 0 job.tasks_running) _ _
      (λ _. Announces-quiet _ _ (IsQuiet-pure tt))
      λ h.
        let (p, r) = idle_counts job.tasks_pending job.tasks_running h in
        Announces-bind _ _ _ (search quiet_rules) λ _.
          Announces-bind _ _ _ (search quiet_rules depth 8) λ _.
            Announces-bind _ _ _ (search (quiet_rules, extract_hdr_result-IsQuiet) depth 8) λ _.
              Announces-emit (IsFinal id job) _ (record {
                status = final_status job;
                event = refl;
                agrees = final_status-agrees job;
                none_pending = p;
                none_running = r;
              })

on_claim-IsQuiet : (g : Goroutine) (r : Result (Unit {0})) → IsQuiet (on_claim g r)
on_claim-IsQuiet g (ok _) = IsQuiet-spawn g
on_claim-IsQuiet g (err Err.not_found) = IsQuiet-pure tt
on_claim-IsQuiet g (err e) = IsQuiet-raise Err.internal

module _ (id : RowId) (job : Job) where
  start_or_skip-Announces :
      (t : Task) (reason : String) (g : Goroutine) (more : Exec (Unit {0}))
      → Announces (IsFinal id job) more
      → Announces (IsFinal id job) (start_or_skip id job t reason g more)
  unfolding start_or_skip
  start_or_skip-Announces t reason g more a =
      Announces-if _ (ltb 0 job.tasks_failed) _ _
        (λ _.
          Announces-bind _ _ _ (search quiet_rules)
            λ _. Announces-bind _ _ _ (search quiet_rules) λ _. a)
        (λ _. Announces-quiet _ _ (search (quiet_rules, on_claim-IsQuiet) depth 8))

  with_pending-Announces :
      (ty : TaskType) (ts : List Task) (start : Task → Exec (Unit {0})) (more : Exec (Unit {0}))
      → ((t : Task) → Announces (IsFinal id job) (start t))
      → Announces (IsFinal id job) more
      → Announces (IsFinal id job) (with_pending ty ts start more)
  with_pending-Announces ty ts start more q a =
      Announces-option _ (find_first (pending_of_type ty) ts) start more q a

  check_vmaf-Announces :
      (s : Server) (more : Exec (Unit {0}))
      → Announces (IsFinal id job) more
      → Announces (IsFinal id job) (check_vmaf s id job more)
  unfolding check_vmaf
  check_vmaf-Announces s more a =
      Announces-if _ (s.vmaf_runner && job.tasks_running == 0 && ltb 0 job.tasks_pending) _ _
        (λ _. Announces-bind _ _ _ (search quiet_rules) λ ts.
          with_pending-Announces TaskType.vmaf_target ts _ more
            (λ t. start_or_skip-Announces t _ _ more a) a)
        (λ _. a)

  check_concat-Announces :
      (s : Server) (more : Exec (Unit {0}))
      → Announces (IsFinal id job) more
      → Announces (IsFinal id job) (check_concat s id job more)
  unfolding check_concat
  check_concat-Announces s more a =
      Announces-if _ (s.concat_runner && job.tasks_pending == 1 && job.tasks_running == 0) _ _
        (λ _. Announces-bind _ _ _ (search quiet_rules) λ ts.
          with_pending-Announces TaskType.concat ts _ more
            (λ t. start_or_skip-Announces t _ _ more a) a)
        (λ _. a)

-- The events behind a run: those before it, or one more.
abbrev Announced : RowId → Job → World → World → Type 0
Announced id job w w' =
    (w'.events ≡ w.events) ⊎ ((e : Event) × (w'.events ≡ e ∷ w.events) × IsFinal id job e)

on_faults :
    (s : Server) (id : RowId) (w : World) (job : Job) (faults : List Bool)
    → find_first (has_job_id id) w.db.jobs ≡ some job
    → Announced id job w (check_job_completion s id (record w { faults = faults })).1
unfolding check_job_completion ◌>>=◌ or_internal call get_job_by_id
on_faults s id w job [] h = rw h (
    (check_concat-Announces id job s _
        (check_vmaf-Announces id job s _ (finish_job-Announces s id job))).at
      (answering w))
on_faults s id w job (true ∷ rest) h = inl refl
on_faults s id w job (false ∷ rest) h = rw h (
    (check_concat-Announces id job s _
        (check_vmaf-Announces id job s _ (finish_job-Announces s id job))).at
      (record w { faults = rest }))

-- checkJobCompletion of a job that exists sends no event or one, whichever store calls fail. One is
-- sent only if the row of the job, as it stands, counts no task pending or running, and it
-- announces the job as completed if the row counts no failed task, and as failed if it counts one.
pub check_job_completion-Announces :
    (s : Server) (id : RowId) (w : World) (job : Job)
    → find_first (has_job_id id) w.db.jobs ≡ some job
    → let events = (check_job_completion s id w).1.events in
      (events ≡ w.events) ⊎ ((e : Event) × (events ≡ e ∷ w.events) × IsFinal id job e)
check_job_completion-Announces s id w job h = on_faults s id w job w.faults h
