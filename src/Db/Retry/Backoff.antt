-- ===== src/Db/Retry/Backoff.antt =====
-- The waiting time of a retry, with and without the wrap-around of the shift.
use native.Mathlib.Omega.{pow_step}
use native.Mathlib.Nat.{pow-le-pow_right}
use encodeswarmr.Prelude.{
  ℕ, zero, suc, ◌+◌, ◌*◌, ◌^◌, ◌%◌, ◌≤◌, ◌<◌, ◌≡◌, refl, ap, pos, ltbℤ, min, if◌then◌else◌, arith,
}
use encodeswarmr.Db.Retry.{int64, backoff_seconds}

pow_bound : (n : ℕ) → n ≤ 58 → 2 ^ n ≤ 2 ^ 58
pow_bound n h = pow-le-pow_right (omega arith) h

int64-small : (n : ℕ) → n < 2 ^ 63 → int64 n ≡ pos n
unfolding int64
int64-small n h = ground arith

capped : (n : ℕ) → (if ltbℤ (pos 3600) (pos n) then pos 3600 else pos n) ≡ pos (min n 3600)
capped n = ground arith

-- Up to 58 retries, the waiting time doubles from 30 seconds, and is at most an hour.
pub backoff_seconds-doubles : (n : ℕ) → n ≤ 58 → backoff_seconds n ≡ pos (min (2 ^ n * 30) 3600)
unfolding backoff_seconds
backoff_seconds-doubles n h =
    rw (int64-small (2 ^ n * 30) (omega (arith, pow_bound n h))) (capped (2 ^ n * 30))

exponent : (n : ℕ) → 2 ^ (64 + suc n) ≡ 2 ^ suc (64 + n)
exponent n = ap (λ k. 2 ^ k) (omega arith)

shifted_out : (n : ℕ) → 2 ^ (64 + n) % 2 ^ 64 ≡ 0
shifted_out zero = refl
shifted_out (suc n) = omega (arith, shifted_out n, pow_step 2 (64 + n), exponent n)

int64-multiple : (n : ℕ) → n % 2 ^ 64 ≡ 0 → int64 (n * 30) ≡ pos 0
unfolding int64
int64-multiple n h = ground arith

-- From 64 retries on, the shift has lost every bit: no waiting time is left.
pub backoff_seconds-lost : (n : ℕ) → backoff_seconds (64 + n) ≡ pos 0
unfolding backoff_seconds
backoff_seconds-lost n = rw (int64-multiple (2 ^ (64 + n)) (shifted_out n)) refl
