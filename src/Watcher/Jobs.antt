-- ===== src/Watcher/Jobs.antt =====
-- The jobs that a scan makes.
use encodeswarmr.Prelude.{
  ℕ, pos, ◌≡◌, refl, inl, inr, String, Bool, true, false, not, ◌&&◌, List, [], Option, some, arith,
  Bool-cases, count_if, count_if-append,
}
use encodeswarmr.Db.Types.{RowId, Job, JobStatus, JobType, Db}
use encodeswarmr.Db.Jobs.{
  CreateJobParams, status_allowed, job_type_allowed, not_null, initial_status, new_job, refers,
  insert_job, create_job,
}
use encodeswarmr.Db.Sources.{
  CreateSourceParams, create_source, get_source_by_unc_path, update_source_watch,
  update_source_or_missing, has_path, has_source_id,
}
use encodeswarmr.Prelude.{any_of}
use encodeswarmr.Exec.{World}
use encodeswarmr.Exec.Keeps.{StmtKeeps, Keeps, Keeps-bind, Keeps-pure, Keeps-call}
use encodeswarmr.Api.Sources.{source_job}
use encodeswarmr.Watcher.Keeps.{scan-Keeps}
use encodeswarmr.Watcher.{Files, WatchFolder, scan}

-- A job that encodes: of any type but the two of an analysis.
abbrev pub is_analysis : JobType → Bool
is_analysis JobType.analysis = true
is_analysis JobType.hdr_detect = true
is_analysis _ = false

abbrev pub OtherJobs : ℕ → Db → Type 0
OtherJobs n db = count_if (λ j. not (is_analysis j.job_type)) db.jobs ≡ n

insert_job-keeps :
    (n : ℕ) (p : CreateJobParams) (status : JobStatus)
    → is_analysis p.job_type ≡ true
    → StmtKeeps (OtherJobs n) (insert_job p status)
unfolding insert_job count_if new_job
insert_job-keeps n p status t = record {
  at = λ now db h.
      elim (Bool-cases
        (status_allowed status && job_type_allowed p.job_type && not_null p.target_tags)) [
          | inr e ↦ rw e h
          | inl e ↦ elim (Bool-cases (refers p db)) [
            | inl r ↦
                rw (e, r, count_if-append (λ j. not (is_analysis j.job_type)) db.jobs _)
                  (rw t (omega (arith, h)))
            | inr r ↦ rw (e, r) h
          ]
        ];
}

analysis-Keeps :
    (n : ℕ) (id : RowId)
    → Keeps (OtherJobs n) (create_job (source_job id JobType.analysis (pos 0) (some [])))
unfolding create_job initial_status
analysis-Keeps n id = Keeps-bind _ _ (Keeps-pure _) λ status.
    Keeps-call _ (insert_job-keeps n (source_job id JobType.analysis (pos 0) (some [])) status refl)

hdr_detect-Keeps :
    (n : ℕ) (id : RowId)
    → Keeps (OtherJobs n) (create_job (source_job id JobType.hdr_detect (pos 0) (some [])))
unfolding create_job initial_status
hdr_detect-Keeps n id = Keeps-bind _ _ (Keeps-pure _) λ status.
    Keeps-call _
      (insert_job-keeps n (source_job id JobType.hdr_detect (pos 0) (some [])) status refl)

create_source-keeps : (n : ℕ) (p : CreateSourceParams) → StmtKeeps (OtherJobs n) (create_source p)
unfolding create_source
create_source-keeps n p = record {
  at = λ now db h. elim (Bool-cases (any_of (has_path p.unc_path) db.sources)) [
    | inl e ↦ rw e h
    | inr e ↦ rw e h
  ];
}

lookup-keeps : (n : ℕ) (p : String) → StmtKeeps (OtherJobs n) (get_source_by_unc_path p)
unfolding get_source_by_unc_path
lookup-keeps n p = record { at = λ now db h. h }

watch-keeps :
    (n : ℕ) (id : RowId) (f c : String) → StmtKeeps (OtherJobs n) (update_source_watch id f c)
unfolding update_source_watch update_source_or_missing
watch-keeps n id f c = record {
  at = λ now db h. elim (Bool-cases (any_of (has_source_id id) db.sources)) [
    | inl e ↦ rw e h
    | inr e ↦ rw e h
  ];
}

-- A scan of a watched folder never makes a job that encodes: whatever the folder holds, and
-- whichever calls of the store fail, the jobs of other types than analysis and hdr_detect are as
-- many as before.
pub scan-encodes_nothing :
    (fs : Files) (f : WatchFolder) (entries : Option (List (String × Bool))) (seen : List String)
    (w : World)
    → count_if (λ j. not (is_analysis j.job_type)) (scan fs f entries seen w).1.db.jobs
      ≡ count_if (λ j. not (is_analysis j.job_type)) w.db.jobs
scan-encodes_nothing fs f entries seen w =
    let n = count_if (λ (j : Job). not (is_analysis j.job_type)) w.db.jobs in
    (scan-Keeps (analysis-Keeps n) (hdr_detect-Keeps n) (create_source-keeps n) (lookup-keeps n)
        (watch-keeps n) fs f entries seen).at
      w refl
