-- ===== src/Db/Claim/Once.antt =====
-- ClaimNextTask as a whole: what it answers, what it changes, and what it never hands out.
use mathlib.Core.List.{Memᴰ}
use encodeswarmr.Prelude.{
  ℕ, ◌≡◌, refl, sym, ap, subst, ◌∙◌, ◌⊎◌, inl, inr, ◌≢◌, String, true, false, List, [], ◌∷◌, Option,
  none, some, arith, Bool-cases, false≢true, All-at, Option-some-none, Option-cases, All, count_if,
  update_where, any_of,
}
use encodeswarmr.Db.Types.{RowId, Task, TaskStatus, TaskType, Job, Db, is_status, is_task_type}
use encodeswarmr.Exec.{Result, ok, err}
use encodeswarmr.Db.Tasks.{has_id}
use encodeswarmr.Db.Claim.{
  job_of, eligible, to_assigned, claim, claim_next_task, is_empty, overlaps, accepts_tags,
  is_claimable_job, backoff_over,
}
use encodeswarmr.Db.Claim.Laws.{IsNext, next_task-Finds}

-- The outcome of a claim: no work and nothing changed, when no task is eligible; or the next task,
-- marked as assigned in the answer and in the table.
abbrev pub Claims : RowId → List String → ℕ → Db → Result (Option Task) × Db → Type 0
Claims agent_id tags now db r =
    ((r ≡ (ok none, db)) × (count_if (eligible now tags db.jobs) db.tasks ≡ 0))
    ⊎ ((t : Task) × IsNext now tags db.jobs db.tasks t
        × (r ≡ (
          ok (some (to_assigned agent_id now t)),
          record db { tasks = update_where (has_id t.id) (to_assigned agent_id now) db.tasks },
        )))

-- A claim answers that there is no work, and changes nothing, only if no task is eligible;
-- otherwise it hands out an eligible task that no eligible task precedes in priority, age of the
-- job and chunk, and the rows of that task, and no others, are marked as assigned to the agent.
pub claim_next_task-Claims :
    (agent_id : RowId) (tags : List String) (now : ℕ) (db : Db)
    → Claims agent_id tags now db (claim_next_task agent_id tags now db)
unfolding claim_next_task
claim_next_task-Claims agent_id tags now db = elim (next_task-Finds now tags db.jobs db.tasks) [
  | inl (e, c) ↦ inl (ap (λ o. claim agent_id now o db) e, c)
  | inr (t, e, n) ↦ inr (t, n, ap (λ o. claim agent_id now o db) e)
]

-- The task of an answer.
abbrev pub answer : Result (Option Task) → Option Task
answer (ok o) = o
answer (err e) = none

-- After an update that assigns the rows with an identifier, no row with it is pending.
assigned_rows :
    (id agent_id : RowId) (now : ℕ) (ts : List Task)
    → All
        (λ u. u.id ≡ id → is_status u.status TaskStatus.pending ≡ false)
        (update_where (has_id id) (to_assigned agent_id now) ts)
unfolding update_where
assigned_rows id agent_id now [] = tt
assigned_rows id agent_id now (t ∷ ts) = elim (Bool-cases (has_id id t)) [
  | inl e ↦ ((λ _. rw e refl), assigned_rows id agent_id now ts)
  | inr e ↦ ((rw e λ h. absurd (ground arith)), assigned_rows id agent_id now ts)
]

eligible-pending :
    (now : ℕ) (tags : List String) (jobs : List Job) (t : Task)
    → eligible now tags jobs t ≡ true
    → is_status t.status TaskStatus.pending ≡ true
unfolding eligible
eligible-pending now tags jobs t h = ground arith

abbrev id_of : Option Task → RowId
id_of none = 0
id_of (some t) = t.id

-- A claim on tables where no row with an identifier is pending does not hand out that task.
not_handed_out :
    (agent_id id : RowId) (tags : List String) (now : ℕ) (db : Db) (r : Result (Option Task) × Db)
    (u : Task)
    → All (λ u. u.id ≡ id → is_status u.status TaskStatus.pending ≡ false) db.tasks
    → Claims agent_id tags now db r
    → answer r.0 ≡ some u
    → u.id ≢ id
not_handed_out agent_id id tags now db r u a (inl (e, c)) h k =
    absurd (Option-some-none (sym h ∙ ap (λ x. answer x.0) e))
not_handed_out agent_id id tags now db r u a (inr (t, n, e)) h k =
    let same = ap id_of (sym (ap (λ x. answer x.0) e) ∙ h) in
    let off = All-at _ db.tasks a n.in_table (same ∙ k) in
    let on = eligible-pending now tags db.jobs t n.is_eligible in false≢true (sym off ∙ on)

-- The table that a claim leaves has no pending row with the identifier that it handed out.
claimed-settled :
    (agent_id : RowId) (tags : List String) (now : ℕ) (db : Db) (r : Result (Option Task) × Db)
    (t : Task)
    → Claims agent_id tags now db r
    → answer r.0 ≡ some t
    → All (λ u. u.id ≡ t.id → is_status u.status TaskStatus.pending ≡ false) r.1.tasks
claimed-settled agent_id tags now db r t (inl (e, c)) h =
    absurd (Option-some-none (sym h ∙ ap (λ x. answer x.0) e))
claimed-settled agent_id tags now db r t (inr (v, n, e)) h =
    let same = ap id_of (sym (ap (λ x. answer x.0) e) ∙ h) in
    subst (λ ts. All (λ u. u.id ≡ t.id → is_status u.status TaskStatus.pending ≡ false) ts)
      (sym (ap (λ x. x.1.tasks) e))
      (subst
        (λ i.
          All (λ u. u.id ≡ i → is_status u.status TaskStatus.pending ≡ false)
            (update_where (has_id v.id) (to_assigned agent_id now) db.tasks))
        same (assigned_rows v.id agent_id now db.tasks))

-- Two claims by any agents at any times, with nothing run between them, never hand out the same
-- task.
pub claim_next_task-twice :
    (a b : RowId) (tags tags' : List String) (now now' : ℕ) (db : Db) (t u : Task)
    → answer (claim_next_task a tags now db).0 ≡ some t
    → answer (claim_next_task b tags' now' (claim_next_task a tags now db).1).0 ≡ some u
    → u.id ≢ t.id
claim_next_task-twice a b tags tags' now now' db t u h k =
    not_handed_out b t.id tags' now' _ _ u
      (claimed-settled a tags now db _ t (claim_next_task-Claims a tags now db) h)
      (claim_next_task-Claims b tags' now' _) k

-- The conditions on a task that may be claimed, spelled out.
abbrev IsOffer : ℕ → List String → List Job → Task → Type 0
IsOffer now tags jobs t =
    (is_status t.status TaskStatus.pending ≡ true)
    × (is_task_type t.task_type TaskType.concat ≡ false)
    × (backoff_over now t.retry_after ≡ true)
    × ((j : Job) × (job_of jobs t ≡ some j)
        × (is_claimable_job j ≡ true)
        × (accepts_tags j tags ≡ true))

eligible-IsOffer :
    (now : ℕ) (tags : List String) (jobs : List Job) (t : Task)
    → eligible now tags jobs t ≡ true
    → IsOffer now tags jobs t
unfolding eligible
eligible-IsOffer now tags jobs t h = elim (Option-cases (job_of jobs t)) [
  | inl e ↦ absurd (ground arith)
  | inr (j, e) ↦ (ground arith, ground arith, ground arith, (j, e, ground arith, ground arith))
]

overlaps-nil : (xs : List String) → overlaps xs [] ≡ false
unfolding overlaps any_of
overlaps-nil [] = refl
overlaps-nil (x ∷ xs) = overlaps-nil xs

untagged : (j : Job) → accepts_tags j [] ≡ true → is_empty j.target_tags ≡ true
untagged j h = ground (arith, overlaps-nil j.target_tags)

-- An agent that polls without tags is only handed a task of a job that asks for no tags, is queued
-- or running, and the task is not the concatenation and not waiting for its backoff time.
pub claim_next_task-untagged :
    (a : RowId) (now : ℕ) (db : Db) (t : Task)
    → (claim_next_task a [] now db).0 ≡ ok (some t)
    → (u : Task) × (Memᴰ u db.tasks)
      × (u.id ≡ t.id)
      × (is_task_type u.task_type TaskType.concat ≡ false)
      × (backoff_over now u.retry_after ≡ true)
      × ((j : Job) × (job_of db.jobs u ≡ some j)
          × (is_claimable_job j ≡ true)
          × (is_empty j.target_tags ≡ true))
claim_next_task-untagged a now db t h = elim (claim_next_task-Claims a [] now db) [
  | inl (e, c) ↦ absurd (Option-some-none (sym (ap answer h) ∙ ap (λ x. answer x.0) e))
  | inr (u, n, e) ↦
      let (p, c, o, (j, ej, cj, tj)) = eligible-IsOffer now [] db.jobs u n.is_eligible in
      (
        u,
        n.in_table,
        ap id_of (sym (ap (λ x. answer x.0) e) ∙ ap answer h),
        c,
        o,
        (j, ej, cj, untagged j tj),
      )
]
