-- ===== src/Agent/Journal/Replay.antt =====
-- What the journal keeps, and what becomes of a replay.
use encodeswarmr.Prelude.{
  ℕ, ◌≡◌, refl, ap, ◌∙◌, subst, Bool, true, false, not, ◌&&◌, ==_refl, List, [], ◌∷◌, arith, ◌==◌,
  Bool-cases, select, update_where, inl, inr, All, any_of, length,
}
use encodeswarmr.Agent.Journal.{
  OfflineResult, OfflineStore, is_pending, pending_results, is_stale, prune_journal, mark_synced,
  mark_one, mark_all, to_synced, sync_results,
}

prune_rows :
    (cutoff : ℕ) (rs : List OfflineResult)
    → select is_pending (select (λ r. not (is_stale cutoff r)) rs) ≡ select is_pending rs
unfolding select
prune_rows cutoff [] = refl
prune_rows cutoff (r ∷ rs) = ground (arith, prune_rows cutoff rs)

-- Pruning the journal, with any cutoff, never loses a result that is still to be replayed.
pub prune_journal-pending :
    (cutoff : ℕ) (o : OfflineStore) → pending_results (prune_journal cutoff o) ≡ pending_results o
unfolding pending_results prune_journal
prune_journal-pending cutoff o = prune_rows cutoff o.results

select-all : (rows : List OfflineResult) → rows ≡ select (λ row. true) rows
unfolding select
select-all [] = refl
select-all (row ∷ rows) = ap (λ rs. row ∷ rs) (select-all rows)

select-cong :
    (p q : OfflineResult → Bool) (rows : List OfflineResult)
    → All (λ row. p row ≡ q row) rows
    → select p rows ≡ select q rows
unfolding select
select-cong p q [] h = refl
select-cong p q (row ∷ rows) h = ground (arith, h.0, select-cong p q rows h.1)

select-mark :
    (id : ℕ) (rows : List OfflineResult)
    → select is_pending (update_where (λ row. row.id == id) to_synced rows)
      ≡ select (λ row. not (id == row.id && true)) (select is_pending rows)
unfolding select update_where
select-mark id [] = refl
select-mark id (row ∷ rows) = ground (arith, select-mark id rows)

select-none :
    (id : ℕ) (rows : List OfflineResult) → rows ≡ select (λ row. not (id == row.id && false)) rows
unfolding select
select-none id [] = refl
select-none id (row ∷ rows) = ground (arith, select-none id rows)

module _ (marked : ℕ → Bool) where
  -- A call of MarkSynced for one of these rows has marked the row.
  abbrev is_marked : List OfflineResult → OfflineResult → Bool
  is_marked rs row = any_of (λ r. r.id == row.id && marked r.id) rs

  mark_one-pending :
      (b : Bool) (id : ℕ) (o : OfflineStore)
      → pending_results (mark_one b id o)
        ≡ select (λ row. not (id == row.id && b)) (pending_results o)
  unfolding pending_results mark_synced
  mark_one-pending true id o = select-mark id o.results
  mark_one-pending false id o = select-none id (select is_pending o.results)

  select-both :
      (r : OfflineResult) (rs rows : List OfflineResult)
      → select
          (λ row. not (is_marked rs row))
          (select (λ row. not (r.id == row.id && marked r.id)) rows)
        ≡ select (λ row. not (is_marked (r ∷ rs) row)) rows
  unfolding select any_of
  select-both r rs [] = refl
  select-both r rs (row ∷ rows) = ground (arith, select-both r rs rows)

  mark_all-pending :
      (rs : List OfflineResult) (o : OfflineStore)
      → pending_results (mark_all marked rs o)
        ≡ select (λ row. not (is_marked rs row)) (pending_results o)
  unfolding mark_all any_of
  mark_all-pending [] o = select-all (pending_results o)
  mark_all-pending (r ∷ rs) o =
      mark_all-pending rs (mark_one (marked r.id) r.id o)
      ∙ ap (select (λ row. not (is_marked rs row))) (mark_one-pending (marked r.id) r.id o)
      ∙ select-both r rs (pending_results o)

  is_marked_sound :
      (rs : List OfflineResult) (row : OfflineResult)
      → is_marked rs row ≡ true
      → marked row.id ≡ true
  unfolding any_of
  is_marked_sound [] row h = absurd (ground arith)
  is_marked_sound (r ∷ rs) row h = elim (Bool-cases (r.id == row.id && marked r.id)) [
    | inl e ↦
        let same : r.id ≡ row.id = ground arith in
        subst (λ id. marked id ≡ true) same (ground arith)
    | inr e ↦ is_marked_sound rs row (rw e at h)
  ]

  -- A row whose call succeeds is marked by a list that it stands in.
  abbrev Complete : List OfflineResult → OfflineResult → Type 0
  Complete rs row = marked row.id ≡ true → is_marked rs row ≡ true

  more_rows :
      (r : OfflineResult) (rs rows : List OfflineResult)
      → All (Complete rs) rows
      → All (Complete (r ∷ rs)) rows
  unfolding any_of
  more_rows r rs [] h = tt
  more_rows r rs (row ∷ rows) h = ((λ e. let k = h.0 e in ground arith), more_rows r rs rows h.1)

  All-Complete : (rs : List OfflineResult) → All (Complete rs) rs
  unfolding any_of
  All-Complete [] = tt
  All-Complete (r ∷ rs) = ((λ e. rw (==_refl r.id, e) refl), more_rows r rs rs (All-Complete rs))

  All-agree :
      (rs rows : List OfflineResult)
      → All (Complete rs) rows
      → All (λ row. not (is_marked rs row) ≡ not (marked row.id)) rows
  All-agree rs [] h = tt
  All-agree rs (row ∷ rows) h = (
    elim (Bool-cases (is_marked rs row)) [
      | inl e ↦ rw (e, is_marked_sound rs row e) refl
      | inr e ↦ elim (Bool-cases (marked row.id)) [
        | inl m ↦ absurd (let k = h.0 m in ground arith)
        | inr m ↦ rw (e, m) refl
      ]
    ],
    All-agree rs rows h.1,
  )

  length_zero :
      (rs : List OfflineResult) (p : OfflineResult → Bool)
      → (length rs == 0) ≡ true
      → rs ≡ select p rs
  unfolding select
  length_zero [] p h = refl
  length_zero (r ∷ rs) p h = absurd (ground arith)

  -- After a replay that the controller has replied to, the results still pending are just those
  -- that were pending before and whose call of MarkSynced has failed; without a reply, the journal
  -- is as it was.
  pub sync_results-settles :
      (sent : ℕ) (o : OfflineStore)
      → (pending_results (sync_results sent true marked o).1
          ≡ select (λ r. not (marked r.id)) (pending_results o))
        × ((sync_results sent false marked o).1 ≡ o)
  unfolding sync_results
  sync_results-settles sent o =
      let rs = pending_results o in
      elim (Bool-cases (length rs == 0)) [
        | inl e ↦ rw e (length_zero rs (λ r. not (marked r.id)) e, refl)
        | inr e ↦ rw e (
          mark_all-pending rs o
              ∙ select-cong (λ row. not (is_marked rs row)) (λ r. not (marked r.id)) rs
                  (All-agree rs rs (All-Complete rs)),
          refl,
        )
      ]
