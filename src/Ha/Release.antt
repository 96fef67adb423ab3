-- ===== src/Ha/Release.antt =====
-- What a leader leaves behind when it resigns.
use encodeswarmr.Prelude.{
  ℕ, zero, suc, ◌==◌, ◌≡◌, ◌≢◌, sym, ◌∙◌, ap, true, arith, inl, inr, Bool-cases,
}
use encodeswarmr.Ha.Advisory.{Locks}
use encodeswarmr.Ha.{Answer, Cluster, try_acquire, release}

module _ (locks : Locks) where
  open locks use {
    S, holds, try_lock, unlock, try_free, try_taken, try_stacks, try_others, unlock_one,
    unlock_others,
  }

  -- So many attempts of a node through one session, all answered.
  unfoldable pub attempts : ℕ → ℕ → ℕ → Cluster locks → Cluster locks
  unfolding try_acquire
  attempts node t zero c = c
  attempts node t (suc k) c = try_acquire locks node t Answer.answered (attempts node t k c)

  -- The session holds the lock so often, and no other one does.
  abbrev HoldsOnly : ℕ → ℕ → S → Type 0
  HoldsOnly t k s = (holds s t ≡ k) × ((u : ℕ) → u ≢ t → holds s u ≡ 0)

  attempts-HoldsOnly :
      (node t k : ℕ) (c : Cluster locks)
      → ((u : ℕ) → holds c.state u ≡ 0)
      → HoldsOnly t k (attempts node t k c).state
  unfolding attempts try_acquire
  attempts-HoldsOnly node t zero c free = (free t, λ u d. free u)
  attempts-HoldsOnly node t (suc k) c free =
      let s = (attempts node t k c).state in
      let (a, others) = attempts-HoldsOnly node t k c free in
      (try_stacks t s (try_free t s others) ∙ ap suc a, λ u d. try_others t u s d ∙ others u d)

  attempts-leads :
      (node t k : ℕ) (c : Cluster locks)
      → ((u : ℕ) → holds c.state u ≡ 0)
      → (attempts node t (suc k) c).leads node ≡ true
  unfolding attempts try_acquire
  attempts-leads node t k c free =
      let s = (attempts node t k c).state in
      ground (arith, try_free t s (attempts-HoldsOnly node t k c free).1)

  unlock-HoldsOnly : (t k : ℕ) (s : S) → HoldsOnly t (suc k) s → HoldsOnly t k (unlock t s).1
  unlock-HoldsOnly t k s (a, others) =
      (ground (arith, unlock_one t s), λ u d. unlock_others t u s d ∙ others u d)

  -- Another session gets the lock just when it is free.
  try_lock-HoldsOnly : (t u k : ℕ) (s : S) → u ≢ t → HoldsOnly t k s → (try_lock u s).0 ≡ (k == 0)
  try_lock-HoldsOnly t u zero s d (a, others) =
      try_free u s (λ v e. elim (Bool-cases (v == t)) [
        | inl f ↦ ground (arith, a)
        | inr f ↦ others v (ground arith)
      ])
      ∙ ground arith
  try_lock-HoldsOnly t u (suc k) s d (a, others) =
      try_taken u t s (λ e. d (sym e)) (λ e. ground arith) ∙ ground arith

  -- After k + 1 attempts of a node through one session, from free locks, and its resignation through
  -- that session, all answered, the next attempt of another node through another session makes that
  -- node the leader just when k is 0: the attempts behind the first one have stacked the lock.
  pub release-hands_over :
      (n m t u k : ℕ) (c : Cluster locks)
      → u ≢ t
      → ((v : ℕ) → holds c.state v ≡ 0)
      → (try_acquire locks m u Answer.answered
            (release locks n t Answer.answered (attempts n t (suc k) c))).leads
          m
        ≡ (k == 0)
  unfolding try_acquire release
  release-hands_over n m t u k c d free =
      let c' = attempts n t (suc k) c in
      let freed = unlock-HoldsOnly t k c'.state (attempts-HoldsOnly n t (suc k) c free) in
      let next = try_lock-HoldsOnly t u k (unlock t c'.state).1 d freed in
      rw (attempts-leads n t k c free) (ground (arith, next))
