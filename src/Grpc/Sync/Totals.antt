-- ===== src/Grpc/Sync/Totals.antt =====
-- Every replayed result is either accepted or rejected.
use encodeswarmr.Prelude.{
  ℕ, suc, ◌+◌, ◌≡◌, refl, sym, ap, subst, Bool, true, false, List, [], ◌∷◌, ◌++◌, map, arith,
  length, length-append, All, if◌then◌else◌,
}
use encodeswarmr.Db.Types.{RowId, Task}
use encodeswarmr.Exec.{Exec, World, Result, ok, err, pure, ◌>>=◌, ◌>>◌, continue}
use encodeswarmr.Grpc.Server.{Server, TaskResult}
use encodeswarmr.Agent.Journal.{OfflineResult, to_message}
use encodeswarmr.Grpc.Sync.{
  SyncResponse, is_rejected, accept_result, sync_loop, sync_offline_results,
}

-- What is so of an answer, if there is one.
abbrev Answers {ℓ} : {A : Type ℓ} → (A → Type 0) → Result A → Type 0
Answers P (ok a) = P a
Answers P (err e) = Unit

record Gives {ℓ} {A : Type ℓ} (P : A → Type 0) (m : Exec A) : Type ℓ where
  at : (w : World) → Answers P (m w).0

module _ {ℓ κ} {A : Type ℓ} {B : Type κ} (P : B → Type 0) where
  Gives-continue :
      (r : Result A) (f : A → Exec B) (w : World)
      → ((a : A) → Gives P (f a))
      → Answers P (continue r f w).0
  Gives-continue (ok a) f w h = (h a).at w
  Gives-continue (err e) f w h = tt

  Gives-bind : (m : Exec A) (f : A → Exec B) → ((a : A) → Gives P (f a)) → Gives P (m >>= f)
  unfolding ◌>>=◌
  Gives-bind m f h = record { at = λ w. let (r, w') = m w in Gives-continue r f w' h }

Gives-if {ℓ} :
    {A : Type ℓ} (P : A → Type 0) (b : Bool) (m k : Exec A)
    → Gives P m
    → Gives P k
    → Gives P (if b then m else k)
Gives-if P true m k h g = h
Gives-if P false m k h g = g

abbrev Accounts : ℕ → SyncResponse → Type 0
Accounts n r = r.accepted + length r.rejected_task_ids ≡ n

sync_loop-Accounts :
    (s : Server) (jitter : TaskResult → ℕ) (n : ℕ) (ids : List RowId) (rs : List TaskResult)
    (total : ℕ)
    → n + length ids + length rs ≡ total
    → Gives (Accounts total) (sync_loop s jitter n ids rs)
unfolding sync_loop pure
sync_loop-Accounts s jitter n ids [] total h = record { at = λ w. omega arith }
sync_loop-Accounts s jitter n ids (r ∷ rs) total h = Gives-bind (Accounts total) _ _ λ t.
    Gives-if (Accounts total) (is_rejected t r) _ _
      (sync_loop-Accounts s jitter n (ids ++ r.task_id ∷ []) rs total
        (omega (arith, length-append ids (r.task_id ∷ []))))
      (Gives-bind (Accounts total) (accept_result s (jitter r) r) _
        λ _. sync_loop-Accounts s jitter (suc n) ids rs total (omega arith))

-- When a replay of offline results comes to its end, whichever calls of the store failed on the
-- way, the results counted as accepted and those listed as rejected are together as many as came.
pub sync_offline_results-Accounts :
    (s : Server) (jitter : TaskResult → ℕ) (rs : List TaskResult) (w : World) (resp : SyncResponse)
    → (sync_offline_results s jitter rs w).0 ≡ ok resp
    → resp.accepted + length resp.rejected_task_ids ≡ length rs
unfolding sync_offline_results
sync_offline_results-Accounts s jitter rs w resp h =
    subst (Answers (Accounts (length rs))) h
      ((sync_loop-Accounts s jitter 0 [] rs (length rs) (omega arith)).at w)

kept_offline : (t : Task) (r : TaskResult) → r.offline_result ≡ true → is_rejected t r ≡ false
kept_offline t r h = ground arith

replay-IsAccepted :
    (s : Server) (jitter : TaskResult → ℕ) (n : ℕ) (ids : List RowId) (rs : List TaskResult)
    → All (λ r. r.offline_result ≡ true) rs
    → Gives (λ resp. resp.rejected_task_ids ≡ ids) (sync_loop s jitter n ids rs)
unfolding sync_loop pure
replay-IsAccepted s jitter n ids [] h = record { at = λ w. refl }
replay-IsAccepted s jitter n ids (r ∷ rs) h =
    Gives-bind (λ resp. resp.rejected_task_ids ≡ ids) _ _
      λ t.
        subst
          (λ b.
            Gives (λ resp. resp.rejected_task_ids ≡ ids)
              (if b
                then sync_loop s jitter n (ids ++ r.task_id ∷ []) rs
                else (accept_result s (jitter r) r >> sync_loop s jitter (suc n) ids rs)))
          (sym (kept_offline t r h.0))
          (Gives-bind (λ resp. resp.rejected_task_ids ≡ ids) (accept_result s (jitter r) r) _
            λ _. replay-IsAccepted s jitter (suc n) ids rs h.1)

messages-offline :
    (rows : List OfflineResult) → All (λ r. r.offline_result ≡ true) (map to_message rows)
messages-offline [] = tt
messages-offline (r ∷ rows) = (refl, messages-offline rows)

-- The controller never rejects what an agent's journal replays: if the replay comes to its end,
-- all its results are counted as accepted.
pub sync_offline_results-of_journal :
    (s : Server) (jitter : TaskResult → ℕ) (rows : List OfflineResult) (w : World)
    (resp : SyncResponse)
    → (sync_offline_results s jitter (map to_message rows) w).0 ≡ ok resp
    → (resp.rejected_task_ids ≡ []) × (resp.accepted ≡ length (map to_message rows))
unfolding sync_offline_results
sync_offline_results-of_journal s jitter rows w resp h =
    let none_rejected =
      subst (Answers (λ r. r.rejected_task_ids ≡ [])) h
        ((replay-IsAccepted s jitter 0 [] (map to_message rows) (messages-offline rows)).at w) in
    let total = sync_offline_results-Accounts s jitter (map to_message rows) w resp h in
    (none_rejected, omega (arith, total, ap length none_rejected))
