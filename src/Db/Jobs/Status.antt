-- ===== src/Db/Jobs/Status.antt =====
-- The rows of a job after UpdateJobStatus.
use encodeswarmr.Prelude.{
  ℕ, ◌≡◌, refl, Bool, true, false, not, ◌&&◌, List, arith, count_if, update_where, any_of,
  count_if-cleared, count_if-none,
}
use encodeswarmr.Db.Types.{RowId, Job, JobStatus, is_job_status}
use encodeswarmr.Db.Jobs.{has_job_id, with_job_status}

-- How many rows of a job have another status.
abbrev pub count_other : RowId → JobStatus → List Job → ℕ
count_other id s = count_if (λ j. has_job_id id j && not (is_job_status j.status s))

has_status :
    (s : JobStatus) (now : ℕ) (j : Job) → is_job_status (with_job_status s now j).status s ≡ true
has_status JobStatus.waiting now j = refl
has_status JobStatus.queued now j = refl
has_status JobStatus.assigned now j = refl
has_status JobStatus.running now j = refl
has_status JobStatus.completed now j = refl
has_status JobStatus.failed now j = refl
has_status JobStatus.cancelled now j = refl

off_when : (a b : Bool) → a ≡ false → (a && b) ≡ false
off_when a b h = rw h refl

off_then : (a b : Bool) → b ≡ true → (a && not b) ≡ false
off_then a b h = ground arith

pub count_other-cleared :
    (id : RowId) (s : JobStatus) (now : ℕ) (js : List Job)
    → count_other id s (update_where (has_job_id id) (with_job_status s now) js) ≡ 0
count_other-cleared id s now js =
    count_if-cleared (has_job_id id) (λ j. has_job_id id j && not (is_job_status j.status s))
      (with_job_status s now) js
      (λ j _. off_then _ (is_job_status (with_job_status s now j).status s) (has_status s now j))
      λ j e. off_when (has_job_id id j) _ e

pub count_other-none :
    (id : RowId) (s : JobStatus) (js : List Job)
    → any_of (has_job_id id) js ≡ false
    → count_other id s js ≡ 0
count_other-none id s js h =
    count_if-none (has_job_id id) (λ j. has_job_id id j && not (is_job_status j.status s)) js
      (λ j e. off_when (has_job_id id j) _ e) h
