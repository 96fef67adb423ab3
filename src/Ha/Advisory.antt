-- ===== src/Ha/Advisory.antt =====
-- The advisory locks of PostgreSQL on one key, as its manual describes them: a lock belongs to a
-- session, requests of the session that holds it stack, and each unlock takes one back.
use encodeswarmr.Prelude.{ℕ, suc, ◌-◌, ◌≡◌, ◌≢◌, Bool, true, false}

pub record Locks : Type 1 where
  pub S : Type 0
  -- How often a session holds the lock.
  pub holds : S → ℕ → ℕ
  -- pg_try_advisory_lock and pg_advisory_unlock.
  pub try_lock : ℕ → S → Bool × S
  pub unlock : ℕ → S → Bool × S
  pub try_free : (t : ℕ) (s : S) → ((u : ℕ) → u ≢ t → holds s u ≡ 0) → (try_lock t s).0 ≡ true
  pub try_taken : (t u : ℕ) (s : S) → u ≢ t → holds s u ≢ 0 → (try_lock t s).0 ≡ false
  pub try_stacks :
      (t : ℕ) (s : S) → (try_lock t s).0 ≡ true → holds (try_lock t s).1 t ≡ suc (holds s t)
  pub try_fails : (t : ℕ) (s : S) → (try_lock t s).0 ≡ false → holds (try_lock t s).1 t ≡ holds s t
  pub try_others : (t u : ℕ) (s : S) → u ≢ t → holds (try_lock t s).1 u ≡ holds s u
  pub unlock_one : (t : ℕ) (s : S) → holds (unlock t s).1 t ≡ holds s t - 1
  pub unlock_others : (t u : ℕ) (s : S) → u ≢ t → holds (unlock t s).1 u ≡ holds s u
