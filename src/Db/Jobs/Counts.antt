-- ===== src/Db/Jobs/Counts.antt =====
-- The counters of a job after UpdateJobTaskCounts.
use mathlib.Core.List.{Memᴰ}
use encodeswarmr.Prelude.{
  ℕ, suc, ◌+◌, ◌≡◌, refl, inl, inr, Bool, ◌&&◌, List, [], ◌∷◌, arith, if◌then◌else◌, Bool-cases,
  All, All-at, count_if, update_where,
}
use encodeswarmr.Db.Types.{RowId, Task, TaskStatus, Job, Db, is_status}
use encodeswarmr.Db.Tasks.{of_job}
use encodeswarmr.Db.Jobs.{has_job_id, count_status, with_counts, update_job_task_counts}

-- A task has one of the six statuses.
count_one :
    (s : TaskStatus) (b : Bool) (n p a r c f x : ℕ)
    → n ≡ p + a + r + c + f + x
    → (if b then suc n else n)
      ≡ (if b && is_status s TaskStatus.pending then suc p else p)
        + (if b && is_status s TaskStatus.assigned then suc a else a)
        + (if b && is_status s TaskStatus.running then suc r else r)
        + (if b && is_status s TaskStatus.completed then suc c else c)
        + (if b && is_status s TaskStatus.failed then suc f else f)
        + (if b && is_status s TaskStatus.cancelled then suc x else x)
count_one s b n p a r c f x h = ground arith

-- The tasks of a job are those of each status together.
pub count_status_sum :
    (id : RowId) (ts : List Task)
    → count_if (of_job id) ts
      ≡ count_status id TaskStatus.pending ts
        + count_status id TaskStatus.assigned ts
        + count_status id TaskStatus.running ts
        + count_status id TaskStatus.completed ts
        + count_status id TaskStatus.failed ts
        + count_status id TaskStatus.cancelled ts
unfolding count_status count_if
count_status_sum id [] = refl
count_status_sum id (t ∷ ts) =
    count_one t.status (of_job id t) (count_if (of_job id) ts)
      (count_status id TaskStatus.pending ts) (count_status id TaskStatus.assigned ts)
      (count_status id TaskStatus.running ts) (count_status id TaskStatus.completed ts)
      (count_status id TaskStatus.failed ts) (count_status id TaskStatus.cancelled ts)
      (count_status_sum id ts)

-- The counters of a row agree with the tasks, and what they leave out of the total is the assigned
-- and the cancelled tasks.
pub record IsCounted (ts : List Task) (j : Job) : Type 0 where
  pub total : j.tasks_total ≡ count_if (of_job j.id) ts
  pub pending : j.tasks_pending ≡ count_status j.id TaskStatus.pending ts
  pub running : j.tasks_running ≡ count_status j.id TaskStatus.running ts
  pub completed : j.tasks_completed ≡ count_status j.id TaskStatus.completed ts
  pub failed : j.tasks_failed ≡ count_status j.id TaskStatus.failed ts
  pub rest :
      j.tasks_total
      ≡ j.tasks_pending
        + j.tasks_running
        + j.tasks_completed
        + j.tasks_failed
        + count_status j.id TaskStatus.assigned ts
        + count_status j.id TaskStatus.cancelled ts

with_counts-IsCounted : (ts : List Task) (j : Job) → IsCounted ts (with_counts ts j)
with_counts-IsCounted ts j = record {
  total = refl;
  pending = refl;
  running = refl;
  completed = refl;
  failed = refl;
  rest = omega (arith, count_status_sum j.id ts);
}

IsCounted-rows :
    (id : RowId) (ts : List Task) (js : List Job)
    → All (λ j. j.id ≡ id → IsCounted ts j) (update_where (has_job_id id) (with_counts ts) js)
unfolding update_where
IsCounted-rows id ts [] = tt
IsCounted-rows id ts (j ∷ js) = elim (Bool-cases (has_job_id id j)) [
  | inl e ↦ ((rw e λ _. with_counts-IsCounted ts j), IsCounted-rows id ts js)
  | inr e ↦ ((rw e λ h. absurd (ground arith)), IsCounted-rows id ts js)
]

-- After UpdateJobTaskCounts, each row of the job has counters that agree with its tasks; the total
-- exceeds the four other counters by the assigned and the cancelled tasks.
pub update_job_task_counts-IsCounted :
    (id : RowId) (now : ℕ) (db : Db) (j : Job)
    → Memᴰ j (update_job_task_counts id now db).1.jobs
    → j.id ≡ id
    → IsCounted db.tasks j
unfolding update_job_task_counts
update_job_task_counts-IsCounted id now db j m h =
    All-at _ (update_where (has_job_id id) (with_counts db.tasks) db.jobs)
      (IsCounted-rows id db.tasks db.jobs) m h
