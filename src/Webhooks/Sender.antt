-- ===== src/Webhooks/Sender.antt =====
-- internal/controller/webhooks/sender.go and service.go: the attempts to deliver an event, and the
-- queue in front of the workers. The HTTP call and the cancellation of the context are parameters.
pub mod Attempts
use encodeswarmr.Prelude.{
  ℕ, zero, suc, ◌+◌, ◌-◌, ◌*◌, ℤ, pos, pos_part, ltbℤ, ◌+ℤ◌, String, Bool, true, false, not, ◌&&◌,
  ◌||◌, List, [], ◌∷◌, ◌++◌, Option, none, some, ltb, leb, ◌==◌, if◌then◌else◌, length,
}

-- A row of the table of deliveries; the event and its payload stay the same throughout.
pub record WebhookDelivery : Type 0 where
  pub attempt : ℕ
  pub success : Bool
  pub response_code : Option ℕ
  pub error_msg : Option String

-- An answer: the status code, 0 without one, and the text of the error.
abbrev pub Answer : Type 0
Answer = ℕ × String

abbrev pub is_blank : String → Bool
is_blank String.[] = true
is_blank (String.◌∷◌ c s) = false

abbrev pub is_success : Answer → Bool
is_success (code, msg) = is_blank msg && leb 200 code && ltb code 300

abbrev pub delivery : ℕ → Answer → WebhookDelivery
delivery attempt (code, msg) = record {
  attempt = attempt;
  success = is_success (code, msg);
  response_code = if ltb 0 code then some code else none;
  error_msg = if not (is_success (code, msg)) && not (is_blank msg) then some msg else none;
}

-- MaxRetries + 1, and 4 if that is 1 or less.
unfoldable pub max_attempts : ℤ → ℕ
max_attempts max_retries = let n = max_retries +ℤ pos 1 in if ltbℤ (pos 1) n then pos_part n else 4

-- The wait before an attempt, in seconds: 10, 30, and then 90 each time.
unfoldable pub retry_delay : ℕ → ℕ
retry_delay attempt = if ltb attempt 3 then 10 else if ltb attempt 4 then 30 else 90

-- InsertWebhookDelivery, which succeeds or is only logged.
abbrev pub insert_delivery : Bool → WebhookDelivery → List WebhookDelivery → List WebhookDelivery
insert_delivery true row rows = row ∷ rows
insert_delivery false row rows = rows

module _ (respond : ℕ → Answer) (cancelled stored : ℕ → Bool) where
  -- The loop from an attempt on, with the attempts that are left: the attempts that it makes, and
  -- the rows of those whose insert succeeds. The first attempt does not wait, and so is not
  -- cancelled.
  unfoldable pub attempts_from : ℕ → ℕ → List WebhookDelivery × List WebhookDelivery
  attempts_from zero attempt = ([], [])
  attempts_from (suc left) attempt =
      let row = delivery attempt (respond attempt) in
      let rest = attempts_from left (suc attempt) in
      if ltb 1 attempt && cancelled attempt
      then ([], [])
      else if row.success
      then (row ∷ [], insert_delivery (stored attempt) row [])
      else (row ∷ rest.0, insert_delivery (stored attempt) row rest.1)

  unfoldable pub send : ℤ → List WebhookDelivery × List WebhookDelivery
  unfolding attempts_from max_attempts
  send max_retries = attempts_from (max_attempts max_retries) 1

-- The queue between Emit and the workers: a delivery is dropped if the queue is full.
unfoldable pub worker_count : ℤ → ℕ
worker_count n = if ltbℤ (pos 0) n then pos_part n else 4

abbrev pub capacity : ℤ → ℕ
capacity n = worker_count n * 10

unfoldable pub enqueue {ℓ} : {A : Type ℓ} → ℕ → List A → List A → List A
enqueue cap queue [] = queue
enqueue cap queue (d ∷ ds) =
    let full = enqueue cap queue ds in
    let room = enqueue cap (queue ++ d ∷ []) ds in if ltb (length queue) cap then room else full
