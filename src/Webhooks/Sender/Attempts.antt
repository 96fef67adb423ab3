-- ===== src/Webhooks/Sender/Attempts.antt =====
-- How often a delivery is tried.
use encodeswarmr.Prelude.{
  ℕ, zero, suc, ◌≤◌, ◌≡◌, refl, subst, ◌+ℤ◌, inl, inr, ap, ℤ, pos, negsuc, select, Bool, true,
  false, ◌&&◌, List, [], ◌∷◌, ◌++◌, arith, ltb, if◌then◌else◌, Bool-cases, length, length-append,
}
use encodeswarmr.Webhooks.Sender.{
  WebhookDelivery, Answer, delivery, max_attempts, insert_delivery, attempts_from, send, enqueue,
}

-- Attempts numbered from one on, of which only the last may be a success.
abbrev pub IsLog : ℕ → List WebhookDelivery → Type 0
IsLog n [] = Unit
IsLog n (row ∷ []) = row.attempt ≡ n
IsLog n (row ∷ (next ∷ rest)) =
    (row.attempt ≡ n) × (row.success ≡ false) × IsLog (suc n) (next ∷ rest)

IsLog-cons :
    (n : ℕ) (row : WebhookDelivery) (rows : List WebhookDelivery)
    → row.attempt ≡ n
    → row.success ≡ false
    → IsLog (suc n) rows
    → IsLog n (row ∷ rows)
IsLog-cons n row [] a s l = a
IsLog-cons n row (next ∷ rest) a s l = (a, s, l)

-- How many attempts a webhook allows.
abbrev pub allowed : ℤ → ℕ
allowed (pos zero) = 4
allowed (pos (suc n)) = suc (suc n)
allowed (negsuc n) = 4

max_attempts-allowed : (max_retries : ℤ) → max_attempts max_retries ≡ allowed max_retries
unfolding max_attempts ◌+ℤ◌
max_attempts-allowed (pos zero) = ground arith
max_attempts-allowed (pos (suc n)) = ground arith
max_attempts-allowed (negsuc zero) = ground arith
max_attempts-allowed (negsuc (suc n)) = ground arith

module _ (respond : ℕ → Answer) (cancelled stored : ℕ → Bool) where
  abbrev is_stored : WebhookDelivery → Bool
  is_stored row = stored row.attempt

  -- What holds of the attempts made and the rows inserted.
  abbrev Logs : ℕ → ℕ → List WebhookDelivery × List WebhookDelivery → Type 0
  Logs n left (made, rows) = IsLog n made × (length made ≤ left) × (rows ≡ select is_stored made)

  insert_delivery-select :
      (row : WebhookDelivery) (made rows : List WebhookDelivery)
      → rows ≡ select is_stored made
      → insert_delivery (stored row.attempt) row rows ≡ select is_stored (row ∷ made)
  unfolding select
  insert_delivery-select row made rows e = elim (Bool-cases (stored row.attempt)) [
    | inl b ↦ rw b (ap (λ rs. row ∷ rs) e)
    | inr b ↦ rw b e
  ]

  -- A turn of the loop: it stops with nothing, or with this row, or goes on.
  Logs-step :
      (stop success : Bool) (row : WebhookDelivery)
      (rest : List WebhookDelivery × List WebhookDelivery) (left : ℕ)
      → row.success ≡ success
      → Logs (suc row.attempt) left rest
      → Logs row.attempt (suc left) (
          if stop
          then ([], [])
          else if success
          then (row ∷ [], insert_delivery (stored row.attempt) row [])
          else (row ∷ rest.0, insert_delivery (stored row.attempt) row rest.1))
  unfolding select
  Logs-step true s row rest left e l = (tt, omega arith, refl)
  Logs-step false true row rest left e l =
      (refl, omega arith, insert_delivery-select row [] [] refl)
  Logs-step false false row rest left e (l, b, k) = (
    IsLog-cons row.attempt row rest.0 refl e l,
    omega (arith, b),
    insert_delivery-select row rest.0 rest.1 k,
  )

  attempts_from-Logs : (left n : ℕ) → Logs n left (attempts_from respond cancelled stored left n)
  unfolding attempts_from select
  attempts_from-Logs zero n = (tt, omega arith, refl)
  attempts_from-Logs (suc left) n =
      let row = delivery n (respond n) in
      Logs-step (ltb 1 n && cancelled n) row.success row _ left refl
        (attempts_from-Logs left (suc n))

  -- The attempts of a delivery are numbered 1, 2, ... without a gap, none follows a success, and
  -- there are at most MaxRetries + 1 of them, or 4 where MaxRetries is 0 or less; the table gets
  -- the rows of just those attempts whose insert succeeds, in their order.
  pub send-IsLog :
      (max_retries : ℤ)
      → let (made, rows) = send respond cancelled stored max_retries in
        IsLog 1 made
        × (length made ≤ allowed max_retries)
        × (rows ≡ select (λ row. stored row.attempt) made)
  unfolding send
  send-IsLog max_retries =
      let (l, b, k) = attempts_from-Logs (max_attempts max_retries) 1 in
      (
        l,
        subst (λ m. length (send respond cancelled stored max_retries).0 ≤ m)
            (max_attempts-allowed max_retries) b,
        k,
      )

-- However many deliveries come at once, the queue never exceeds its capacity.
pub enqueue-bounded {ℓ} :
    {A : Type ℓ} (cap : ℕ) (queue ds : List A)
    → length queue ≤ cap
    → length (enqueue cap queue ds) ≤ cap
unfolding enqueue
enqueue-bounded cap queue [] h = h
enqueue-bounded cap queue (d ∷ ds) h = elim (Bool-cases (ltb (length queue) cap)) [
  | inl e ↦
      rw e (enqueue-bounded cap (queue ++ d ∷ []) ds (ground (arith, length-append queue (d ∷ []))))
  | inr e ↦ rw e (enqueue-bounded cap queue ds h)
]
