-- ===== src/Engine/Errors/Budget.antt =====
-- How many retries a failure is worth.
use encodeswarmr.Prelude.{ℕ, zero, suc, ◌≤◌, ◌≡◌, ◌≢◌, ℤ, pos, negsuc, ltbℤ, ◌≤ℤ◌, true, arith}
use encodeswarmr.Engine.Errors.{ErrorCategory, max_retries_for_category, half_retries}

half-le : (n : ℕ) → half_retries (suc n) ≤ suc n
unfolding half_retries
half-le n = ground arith

-- A retry that the category of the failure admits is within the job's own limit, and the failure
-- is not a permanent one.
pub max_retries_for_category-budget :
    (c : ErrorCategory) (m : ℤ) (n : ℕ)
    → ltbℤ (pos n) (max_retries_for_category c m) ≡ true
    → (pos (suc n) ≤ℤ m) × (c ≢ ErrorCategory.permanent)
unfolding max_retries_for_category
max_retries_for_category-budget ErrorCategory.permanent m n h = absurd (ground arith)
max_retries_for_category-budget ErrorCategory.unknown (pos zero) n h = absurd (ground arith)
max_retries_for_category-budget ErrorCategory.unknown (pos (suc k)) n h =
    (ground (arith, half-le k), λ e. absurd cc)
max_retries_for_category-budget ErrorCategory.unknown (negsuc k) n h = absurd (ground arith)
max_retries_for_category-budget ErrorCategory.transient m n h = (ground arith, λ e. absurd cc)
