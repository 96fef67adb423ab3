-- ===== src/Agent/Runner/Delivery.antt =====
-- What becomes of the results of an agent.
use mathlib.Core.List.{Memᴰ, append-nil, append_assoc}
use mathlib.Core.List.Memᴰ.{append_left, append_right}
use encodeswarmr.Prelude.{
  ℕ, ◌==◌, ◌≡◌, refl, sym, ap, ◌∙◌, subst, true, false, Bool, ◌||◌, All, List, [], ◌∷◌, ◌++◌, map,
  Option, none, some, arith, inl, inr, ◌⊎◌, Bool-cases, select, length, take,
}
use encodeswarmr.Grpc.Server.{TaskResult}
use encodeswarmr.Agent.Journal.{
  OfflineStore, OfflineResult, is_pending, to_message, pending_results, save_result, sync_results,
}
use encodeswarmr.Agent.Runner.{
  Host, TaskAssignment, Report, Cycle, Runner, result_of, handle_task, on_answer, save,
  poll_and_execute, poll_loop,
}

-- The messages of a journal.
abbrev pub messages : OfflineStore → List TaskResult
messages o = map to_message (pending_results o)

abbrev pub offline : TaskResult → TaskResult
offline res = record res { offline_result = true }

messages_append :
    (rows : List OfflineResult) (row : OfflineResult)
    → is_pending row ≡ true
    → map to_message (select is_pending (rows ++ row ∷ []))
      ≡ map to_message (select is_pending rows) ++ to_message row ∷ []
unfolding select
messages_append [] row h = rw h refl
messages_append (r ∷ rows) row h = elim (Bool-cases (is_pending r)) [
  | inl e ↦ rw e (ap (λ ms. to_message r ∷ ms) (messages_append rows row h))
  | inr e ↦ rw e (messages_append rows row h)
]

take_all {ℓ} : {A : Type ℓ} (xs : List A) → take (length xs) xs ≡ xs
take_all [] = refl
take_all (x ∷ xs) = ap (λ ys. x ∷ ys) (take_all xs)

-- A replay sends every message of the journal, if the stream takes them.
sync_results-sends :
    (marked : ℕ → Bool) (o : OfflineStore)
    → (sync_results (length (pending_results o)) true marked o).0 ≡ messages o
unfolding sync_results
sync_results-sends marked o = elim (Bool-cases (length (pending_results o) == 0)) [
  | inl e ↦ rw e (ap (map to_message) (none_left (pending_results o) e))
  | inr e ↦ rw e (ap (map to_message) (take_all (pending_results o)))
]
  where
    none_left : (rs : List OfflineResult) → (length rs == 0) ≡ true → [] ≡ rs
    none_left [] h = refl
    none_left (r ∷ rs) h = absurd (ground arith)

abbrev pub arrives : Report → Bool
arrives Report.lost = false
arrives _ = true

-- The report of the cycle has arrived, or the journal takes the result.
abbrev pub is_kept : Cycle → Bool
is_kept c = arrives c.report || c.saved

-- A result has come to the controller as it was, or out of the journal.
abbrev pub Delivered : TaskResult → List TaskResult → List TaskResult → Type 0
Delivered res got replayed = Memᴰ res got ⊎ Memᴰ (offline res) replayed

abbrev pub TaskDelivered : Host → Option TaskAssignment → List TaskResult → List TaskResult → Type 0
TaskDelivered h none got replayed = Unit
TaskDelivered h (some t) got replayed = Delivered (result_of h t) got replayed

-- So has the result of each task of some cycles.
abbrev pub AllDelivered : Host → List Cycle → List TaskResult → List TaskResult → Type 0
AllDelivered h [] got replayed = Unit
AllDelivered h (c ∷ cs) got replayed =
    TaskDelivered h c.task got replayed × AllDelivered h cs got replayed

module _ (h : Host) where
  -- The messages of the journal behind a cycle, and the result of its task.
  abbrev Settled : Option TaskAssignment → Runner → Runner × List TaskResult → Type 0
  Settled o r (r', got) =
      ((extra : List TaskResult) × (messages r'.journal ≡ messages r.journal ++ extra))
      × TaskDelivered h o got (messages r'.journal)

  save-messages :
      (now : ℕ) (t : TaskAssignment) (r : Runner)
      → messages (save true now (result_of h t) r).journal
        ≡ messages r.journal ++ offline (result_of h t) ∷ []
  unfolding save_result pending_results result_of
  save-messages now t r = messages_append r.journal.results _ refl

  saved_last :
      (now : ℕ) (t : TaskAssignment) (r : Runner)
      → Memᴰ (offline (result_of h t)) (messages (save true now (result_of h t) r).journal)
  saved_last now t r =
      subst (Memᴰ (offline (result_of h t))) (sym (save-messages now t r))
        (append_right (messages r.journal) (Memᴰ.head refl))

  task-Settled :
      (now : ℕ) (rep : Report) (saved : Bool) (t : TaskAssignment) (r : Runner)
      → (arrives rep || saved) ≡ true
      → Settled (some t) r (handle_task h now rep saved t r)
  task-Settled now Report.replied saved t r k =
      (([], sym (append-nil (messages r.journal))), inl (Memᴰ.head refl))
  task-Settled now Report.unanswered false t r k =
      (([], sym (append-nil (messages r.journal))), inl (Memᴰ.head refl))
  task-Settled now Report.unanswered true t r k = ((_, save-messages now t r), inl (Memᴰ.head refl))
  task-Settled now Report.lost false t r k = absurd (ground arith)
  task-Settled now Report.lost true t r k = ((_, save-messages now t r), inr (saved_last now t r))

  on_answer-Settled :
      (now : ℕ) (rep : Report) (saved : Bool) (o : Option TaskAssignment) (r : Runner)
      → (arrives rep || saved) ≡ true
      → Settled o r (on_answer h now rep saved o r)
  on_answer-Settled now rep saved none r k = (([], sym (append-nil (messages r.journal))), tt)
  on_answer-Settled now rep saved (some t) r k = task-Settled now rep saved t r k

  later_task :
      (o : Option TaskAssignment) (got more rep extra : List TaskResult)
      → TaskDelivered h o got rep
      → TaskDelivered h o (got ++ more) (rep ++ extra)
  later_task none got more rep extra d = tt
  later_task (some t) got more rep extra (inl m) = inl (append_left more m)
  later_task (some t) got more rep extra (inr m) = inr (append_left extra m)

  earlier_task :
      (o : Option TaskAssignment) (before got rep : List TaskResult)
      → TaskDelivered h o got rep
      → TaskDelivered h o (before ++ got) rep
  earlier_task none before got rep d = tt
  earlier_task (some t) before got rep (inl m) = inl (append_right before m)
  earlier_task (some t) before got rep (inr m) = inr m

  earlier_tasks :
      (cs : List Cycle) (before got rep : List TaskResult)
      → AllDelivered h cs got rep
      → AllDelivered h cs (before ++ got) rep
  earlier_tasks [] before got rep d = tt
  earlier_tasks (c ∷ cs) before got rep d =
      (earlier_task c.task before got rep d.0, earlier_tasks cs before got rep d.1)

  -- Both hold of a loop.
  abbrev AllSettled : List Cycle → Runner → Runner × List TaskResult → Type 0
  AllSettled cs r (r', got) =
      ((extra : List TaskResult) × (messages r'.journal ≡ messages r.journal ++ extra))
      × AllDelivered h cs got (messages r'.journal)

  poll_loop-AllSettled :
      (cs : List Cycle) (r : Runner)
      → All (λ c. is_kept c ≡ true) cs
      → AllSettled cs r (poll_loop h cs r)
  unfolding poll_loop poll_and_execute
  poll_loop-AllSettled [] r kept = (([], sym (append-nil (messages r.journal))), tt)
  poll_loop-AllSettled (c ∷ cs) r kept =
      let now = on_answer h c.now c.report c.saved c.task r in
      let ((a, e), d) = on_answer-Settled c.now c.report c.saved c.task r kept.0 in
      let ((b, f), all) = poll_loop-AllSettled cs now.0 kept.1 in
      let later = poll_loop h cs now.0 in
      (
        (a ++ b, f ∙ ap (λ ms. ms ++ b) e ∙ append_assoc (messages r.journal) a b),
        (
          subst (TaskDelivered h c.task (now.1 ++ later.1)) (sym f)
              (later_task c.task now.1 later.1 (messages now.0.journal) b d),
          earlier_tasks cs now.1 later.1 (messages later.0.journal) all,
        ),
      )

-- After turns of the poll loop, in each of which the report arrives, answered or not, or the journal
-- takes the result, and a replay of the journal that the controller takes to its end, the
-- controller has received the result of every task that the agent has got, by its report or marked
-- as offline by the replay.
pub poll_loop-delivers :
    (h : Host) (cs : List Cycle) (r : Runner) (marked : ℕ → Bool)
    → All (λ c. is_kept c ≡ true) cs
    → let after = poll_loop h cs r in
      AllDelivered h cs after.1
        (sync_results (length (pending_results after.0.journal)) true marked after.0.journal).0
poll_loop-delivers h cs r marked kept =
    let after = poll_loop h cs r in
    subst (AllDelivered h cs after.1) (sym (sync_results-sends marked after.0.journal))
      (poll_loop-AllSettled h cs r kept).1
