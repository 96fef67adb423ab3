-- ===== src/Ha.antt =====
-- internal/controller/ha/leader.go: the nodes of a cluster elect a leader by an advisory lock of the
-- database. A query runs on some session of the node's pool; the database may not answer, before or
-- after it has run the query.
pub mod Advisory
pub mod Single
pub mod Release
use encodeswarmr.Prelude.{ℕ, Bool, true, false, ◌==◌, if◌then◌else◌}
use encodeswarmr.Ha.Advisory.{Locks}

-- What comes of a query: it is answered, or it fails without or with its effect.
pub data Answer : Type 0 where
  answered lost done : Answer

module _ (locks : Locks) where
  open locks use {S, try_lock, unlock}

  -- The locks, and isLeaderVal of each node.
  pub record Cluster : Type 0 where
    pub state : S
    pub leads : ℕ → Bool

  -- Store and Swap on the flag of a node.
  abbrev pub set_flag : ℕ → Bool → (ℕ → Bool) → ℕ → Bool
  set_flag node b leads n = if n == node then b else leads n

  abbrev pub flagged : ℕ → Bool → Cluster → Cluster
  flagged node b c = record c { leads = set_flag node b c.leads }

  -- The flag follows the answer of pg_try_advisory_lock; without an answer it is cleared.
  unfoldable pub try_acquire : ℕ → ℕ → Answer → Cluster → Cluster
  try_acquire node session Answer.answered c =
      let (acquired, s) = try_lock session c.state in flagged node acquired (record c { state = s })
  try_acquire node session Answer.lost c = flagged node false c
  try_acquire node session Answer.done c =
      flagged node false (record c { state = (try_lock session c.state).1 })

  -- The two steps of release behind its check of the flag: pg_advisory_unlock, and, once that is
  -- answered, Store. Without an answer the flag stays as it is.
  abbrev pub begin_release : ℕ → Answer → Cluster → Cluster
  begin_release session Answer.lost c = c
  begin_release session _ c = record c { state = (unlock session c.state).1 }

  abbrev pub end_release : ℕ → Answer → Cluster → Cluster
  end_release node Answer.answered c = flagged node false c
  end_release node _ c = c

  -- Both, with nothing run between them.
  unfoldable pub release : ℕ → ℕ → Answer → Cluster → Cluster
  release node session a c =
      if c.leads node then end_release node a (begin_release session a c) else c
