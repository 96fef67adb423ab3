-- ===== src/Db/Tasks/Claims.antt =====
-- ClaimConcatTask is a compare-and-set: of two runners, one gets the task.
use encodeswarmr.Prelude.{
  ℕ, ◌≡◌, refl, inl, inr, Bool, true, false, ◌&&◌, List, [], ◌∷◌, arith, ◌==◌, Bool-cases, any_of,
  update_where,
}
use encodeswarmr.Db.Types.{RowId, Task, TaskStatus, Db, is_status}
use encodeswarmr.Exec.{ok, err, Err}
use encodeswarmr.Db.Tasks.{to_running, update_or_missing, claim_concat_task}

abbrev is_free : RowId → Task → Bool
is_free id t = t.id == id && is_status t.status TaskStatus.pending

none_free :
    (id : RowId) (now : ℕ) (ts : List Task)
    → any_of (is_free id) (update_where (is_free id) (to_running now) ts) ≡ false
unfolding any_of update_where
none_free id now [] = refl
none_free id now (t ∷ ts) = elim (Bool-cases (is_free id t)) [
  | inl e ↦ ground (arith, none_free id now ts)
  | inr e ↦ ground (arith, none_free id now ts)
]

-- A claim of a task that the controller runs itself succeeds when a row of it is pending; from then
-- on, a second claim at any later time finds no task and changes nothing.
pub claim_concat_task-twice :
    (id : RowId) (now later : ℕ) (db : Db)
    → any_of (λ t. t.id == id && is_status t.status TaskStatus.pending) db.tasks ≡ true
    → ((claim_concat_task id now db).0 ≡ ok tt)
      × (claim_concat_task id later (claim_concat_task id now db).1
          ≡ (err Err.not_found, (claim_concat_task id now db).1))
unfolding claim_concat_task update_or_missing
claim_concat_task-twice id now later db h = rw h ((refl, (rw (none_free id now db.tasks) refl)))
