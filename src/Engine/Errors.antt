-- ===== src/Engine/Errors.antt =====
-- internal/controller/engine/errors.go: which failures of a task are worth another try.
pub mod Budget
use encodeswarmr.Prelude.{
  ℕ, zero, suc, ◌/◌, ℤ, pos, negsuc, String, Bool, true, false, List, [], ◌∷◌, map, ltb, ◌==◌,
  if◌then◌else◌, any_of, ltbℤ,
}
use encodeswarmr.Prelude.Text.{codes, contains, to_lower}

pub data ErrorCategory : Type 0 where
  transient permanent unknown : ErrorCategory

abbrev pub transient_phrases : List String
transient_phrases =
    "connection refused" ∷ "disk full" ∷ "no space left" ∷ "signal: killed" ∷ "signal killed"
    ∷ "i/o timeout" ∷ "network unreachable" ∷ "temporary failure"
    ∷ "resource temporarily unavailable" ∷ "output validation failed" ∷ []

abbrev pub permanent_phrases : List String
permanent_phrases =
    "codec not found" ∷ "invalid data" ∷ "no such file" ∷ "invalid option" ∷ "unrecognized option"
    ∷ "not supported" ∷ "permission denied" ∷ "access denied" ∷ "invalid argument"
    ∷ "moov atom not found" ∷ []

-- Whether the message, in lower case, holds one of the phrases. Case is that of the ASCII letters,
-- which are all that the phrases have.
unfoldable pub mentions : List String → String → Bool
unfolding contains to_lower
mentions phrases msg = any_of (λ p. contains (codes p) (map to_lower (codes msg))) phrases

-- The message decides, after the exit code has not.
unfoldable pub classify_message : String → ErrorCategory
classify_message msg =
    if mentions permanent_phrases msg
    then ErrorCategory.permanent
    else if mentions transient_phrases msg
    then ErrorCategory.transient
    else ErrorCategory.unknown

-- A negative exit code is in neither table.
unfoldable pub classify_error : ℤ → String → ErrorCategory
unfolding classify_message
classify_error (pos zero) msg = ErrorCategory.transient
classify_error (pos (suc zero)) msg =
    if mentions permanent_phrases msg then ErrorCategory.permanent else ErrorCategory.transient
classify_error (pos (suc (suc n))) msg = ErrorCategory.permanent
classify_error (negsuc n) msg = classify_message msg

-- max_retries / 2, at least 1, for a positive number of retries.
unfoldable pub half_retries : ℕ → ℕ
half_retries n = let half = n / 2 in if ltb half 1 then 1 else half

unfoldable pub max_retries_for_category : ErrorCategory → ℤ → ℤ
unfolding half_retries
max_retries_for_category ErrorCategory.permanent m = pos 0
max_retries_for_category ErrorCategory.unknown (pos zero) = pos 0
max_retries_for_category ErrorCategory.unknown (pos (suc n)) = pos (half_retries (suc n))
max_retries_for_category ErrorCategory.unknown (negsuc n) = pos 0
max_retries_for_category ErrorCategory.transient m = m
