-- ===== src/Ha/Single.antt =====
-- There is one leader at most.
use encodeswarmr.Prelude.{
  ℕ, ◌==◌, ◌≡◌, ◌≢◌, refl, if◌then◌else◌, sym, ◌∙◌, ap, subst, Bool, true, false, arith, inl, inr,
  Bool-cases,
}
use encodeswarmr.Ha.Advisory.{Locks}
use encodeswarmr.Ha.{Answer, Cluster, flagged, try_acquire, begin_release, end_release}

module _ (locks : Locks) (owner : ℕ → ℕ) where
  open locks use {
    S, holds, try_lock, unlock, try_taken, try_stacks, try_fails, try_others, unlock_one,
    unlock_others,
  }

  -- A node tries to lead until it is stopped; then it unlocks, if it leads, and ends.
  pub data Phase : Type 0 where
    serving stopped : Phase
    unlocking : Answer → Phase

  abbrev pub is_serving : Phase → Bool
  is_serving Phase.serving = true
  is_serving _ = false

  pub record Nodes : Type 0 where
    pub cluster : Cluster locks
    pub phase : ℕ → Phase

  abbrev pub set_phase : ℕ → Phase → Nodes → ℕ → Phase
  set_phase node p s n = if n == node then p else s.phase n

  -- The steps of the nodes. Every session belongs to the pool of one node, and no connection closes.
  pub data Step : Nodes → Nodes → Type 0 where
    attempt :
        {s : Nodes} (session : ℕ) (a : Answer)
        → s.phase (owner session) ≡ Phase.serving
        → Step s (record s { cluster = try_acquire locks (owner session) session a s.cluster })
    begin :
        {s : Nodes} (session : ℕ) (a : Answer)
        → s.phase (owner session) ≡ Phase.serving
        → s.cluster.leads (owner session) ≡ true
        → Step s (record {
          cluster = begin_release locks session a s.cluster;
          phase = set_phase (owner session) (Phase.unlocking a) s;
        })
    finish :
        {s : Nodes} (node : ℕ) (a : Answer)
        → s.phase node ≡ Phase.unlocking a
        → Step s (record {
          cluster = end_release locks node a s.cluster;
          phase = set_phase node Phase.stopped s;
        })
    quit :
        {s : Nodes} (node : ℕ)
        → s.phase node ≡ Phase.serving
        → s.cluster.leads node ≡ false
        → Step s (record s { phase = set_phase node Phase.stopped s })

  pub data Run : Nodes → Nodes → Type 0 where
    start : {s : Nodes} → Run s s
    step : {s t u : Nodes} → Run s t → Step t u → Run s u

  abbrev Held : S → ℕ → Type 0
  Held s t = holds s t ≢ 0

  abbrev Only : S → Type 0
  Only s = (t u : ℕ) → Held s t → Held s u → t ≡ u

  -- A node that serves and leads has a session that holds the lock.
  abbrev Backed : Nodes → Type 0
  Backed s =
      (n : ℕ)
      → is_serving (s.phase n) ≡ true
      → s.cluster.leads n ≡ true
      → (t : ℕ) × (owner t ≡ n) × Held s.cluster.state t

  abbrev Good : Nodes → Type 0
  Good s = Only s.cluster.state × Backed s

  Held-before : (t u : ℕ) (s : S) → Held (try_lock t s).1 u → (u == t) ≡ false → Held s u
  Held-before t u s h e = λ k. h (try_others t u s (ground arith) ∙ k)

  Held-taken : (t u : ℕ) (s : S) → Held (try_lock t s).1 t → (u == t) ≡ false → Held s u → Held s t
  Held-taken t u s h e k = λ z. h (try_fails t s (try_taken t u s (ground arith) k) ∙ z)

  try_lock-Only : (t : ℕ) (s : S) → Only s → Only (try_lock t s).1
  try_lock-Only t s o u v a b = elim (Bool-cases (u == t)) [
    | inl e ↦ elim (Bool-cases (v == t)) [
      | inl f ↦ ground arith
      | inr f ↦
          let at_t : Held (try_lock t s).1 t = subst (Held (try_lock t s).1) (ground arith) a in
          let k = Held-before t v s b f in (ground arith) ∙ o t v (Held-taken t v s at_t f k) k
    ]
    | inr e ↦ elim (Bool-cases (v == t)) [
      | inl f ↦
          let at_t : Held (try_lock t s).1 t = subst (Held (try_lock t s).1) (ground arith) b in
          let k = Held-before t u s a e in o u t k (Held-taken t u s at_t e k) ∙ (ground arith)
      | inr f ↦ o u v (Held-before t u s a e) (Held-before t v s b f)
    ]
  ]

  Held-locked : (t u : ℕ) (s : S) → Held s u → Held (try_lock t s).1 u
  Held-locked t u s h = elim (Bool-cases (u == t)) [
    | inr e ↦ λ k. h (sym (try_others t u s (ground arith)) ∙ k)
    | inl e ↦ elim (Bool-cases (try_lock t s).0) [
      | inl b ↦ λ k. ground (arith, try_stacks t s b)
      | inr b ↦ λ k. ground (arith, try_fails t s b)
    ]
  ]

  unlock-before : (t u : ℕ) (s : S) → Held (unlock t s).1 u → Held s u
  unlock-before t u s h = elim (Bool-cases (u == t)) [
    | inr e ↦ λ k. h (unlock_others t u s (ground arith) ∙ k)
    | inl e ↦ λ k. ground (arith, unlock_one t s)
  ]

  -- The flag of the node of a session, after the session has tried, or has been let alone.
  flagged-Backed :
      (s : Nodes) (t : ℕ) (b : Bool) (l : S)
      → ((u : ℕ) → Held s.cluster.state u → Held l u)
      → (b ≡ true → Held l t)
      → Backed s
      → Backed (record s { cluster = flagged locks (owner t) b (record s.cluster { state = l }) })
  flagged-Backed s t b l keeps now h n z k = elim (Bool-cases (n == owner t)) [
    | inl e ↦ (t, ground arith, now (ground (arith, k)))
    | inr e ↦ let (u, q, held) = h n z (ground (arith, k)) in (u, q, keeps u held)
  ]

  attempt-Good :
      (s : Nodes) (t : ℕ) (a : Answer)
      → Good s
      → Good (record s { cluster = try_acquire locks (owner t) t a s.cluster })
  unfolding try_acquire
  attempt-Good s t Answer.answered (o, h) =
      let l = s.cluster.state in
      (
        try_lock-Only t l o,
        flagged-Backed s t (try_lock t l).0 (try_lock t l).1 (λ u k. Held-locked t u l k)
            (λ b z. ground (arith, try_stacks t l b)) h,
      )
  attempt-Good s t Answer.lost (o, h) =
      (o, flagged-Backed s t false s.cluster.state (λ u k. k) (λ b. absurd (ground arith)) h)
  attempt-Good s t Answer.done (o, h) =
      let l = s.cluster.state in
      (
        try_lock-Only t l o,
        flagged-Backed s t false (try_lock t l).1 (λ u k. Held-locked t u l k)
            (λ b. absurd (ground arith)) h,
      )

  -- A node that is no longer serving needs no lock.
  leave-Backed :
      (s : Nodes) (node : ℕ) (p : Phase) (c : Cluster locks)
      → is_serving p ≡ false
      → ((n : ℕ) → (n == node) ≡ false → c.leads n ≡ true → s.cluster.leads n ≡ true)
      → ((u : ℕ) → (owner u == node) ≡ false → Held s.cluster.state u → Held c.state u)
      → Backed s
      → Backed (record { cluster = c; phase = set_phase node p s })
  leave-Backed s node p c off flags keeps h n z k = elim (Bool-cases (n == node)) [
    | inl e ↦ absurd (let w : is_serving p ≡ true = rw e at z in ground arith)
    | inr e ↦
        let (u, q, held) = h n (rw e at z) (flags n e k) in (u, q, keeps u (ground arith) held)
  ]

  unlock-others :
      (t u : ℕ) (l : S) → (owner u == owner t) ≡ false → Held l u → Held (unlock t l).1 u
  unlock-others t u l e h = elim (Bool-cases (u == t)) [
    | inl f ↦
        let same : u ≡ t = ground arith in
        absurd (let o : owner u ≡ owner t = ap owner same in ground arith)
    | inr f ↦ λ z. h (sym (unlock_others t u l (ground arith)) ∙ z)
  ]

  begin-Good :
      (s : Nodes) (t : ℕ) (a : Answer)
      → Good s
      → Good (record {
        cluster = begin_release locks t a s.cluster;
        phase = set_phase (owner t) (Phase.unlocking a) s;
      })
  begin-Good s t Answer.lost (o, h) =
      (o, leave-Backed s (owner t) _ s.cluster refl (λ n e k. k) (λ u e k. k) h)
  begin-Good s t Answer.answered (o, h) = (
    λ u v a b. o u v (unlock-before t u s.cluster.state a) (unlock-before t v s.cluster.state b),
    leave-Backed s (owner t) _ _ refl (λ n e k. k) (λ u e k. unlock-others t u _ e k) h,
  )
  begin-Good s t Answer.done (o, h) = (
    λ u v a b. o u v (unlock-before t u s.cluster.state a) (unlock-before t v s.cluster.state b),
    leave-Backed s (owner t) _ _ refl (λ n e k. k) (λ u e k. unlock-others t u _ e k) h,
  )

  finish-Good :
      (s : Nodes) (node : ℕ) (a : Answer)
      → Good s
      → Good (record {
        cluster = end_release locks node a s.cluster;
        phase = set_phase node Phase.stopped s;
      })
  finish-Good s node Answer.answered (o, h) =
      (o, leave-Backed s node _ _ refl (λ n e k. rw e at k) (λ u e k. k) h)
  finish-Good s node Answer.lost (o, h) =
      (o, leave-Backed s node _ s.cluster refl (λ n e k. k) (λ u e k. k) h)
  finish-Good s node Answer.done (o, h) =
      (o, leave-Backed s node _ s.cluster refl (λ n e k. k) (λ u e k. k) h)

  Step-Good : {s t : Nodes} → Step s t → Good s → Good t
  Step-Good (Step.attempt {s} t a p) h = attempt-Good s t a h
  Step-Good (Step.begin {s} t a p l) h = begin-Good s t a h
  Step-Good (Step.finish {s} node a p) h = finish-Good s node a h
  Step-Good (Step.quit {s} node p l) h =
      (h.0, leave-Backed s node _ s.cluster refl (λ n e k. k) (λ u e k. k) h.1)

  Run-Good : {s t : Nodes} → Run s t → Good s → Good t
  Run-Good Run.start h = h
  Run-Good (Run.step p q) h = Step-Good q (Run-Good p h)

  -- From nodes without a leader and without a lock, in any order of attempts and of the two steps of
  -- resignations, through any sessions of the nodes' pools and whichever queries are not answered,
  -- two nodes that have not begun to resign never both take themselves for the leader, provided that
  -- no connection closes.
  pub Run-one_leader :
      {s t : Nodes}
      → Run s t
      → ((u : ℕ) → holds s.cluster.state u ≡ 0)
      → ((n : ℕ) → s.cluster.leads n ≡ false)
      → (n m : ℕ) → is_serving (t.phase n) ≡ true
      → is_serving (t.phase m) ≡ true
      → t.cluster.leads n ≡ true
      → t.cluster.leads m ≡ true
      → n ≡ m
  Run-one_leader {s} {t} p free none_leads n m x y a b =
      let start : Good s =
        ((λ u v held k. absurd (held (free u))), λ z _ k. absurd (ground (arith, none_leads z))) in
      let (only, backed) = Run-Good p start in
      let (u, q, held) = backed n x a in
      let (v, r, kept) = backed m y b in sym q ∙ ap owner (only u v held kept) ∙ r
