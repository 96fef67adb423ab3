-- ===== src/Prelude/Decimal.antt =====
-- A number in decimal and back.
use Prim.Native.Char.{code}
use Prim.Native.String.{String, ◌++◌ as append}
use Prim.Native.Nat.{ℕ, zero, suc, ◌+◌, ◌*◌, ◌/◌, ◌%◌, ◌≤◌, ◌<◌}
use mathlib.Core.Path.{◌≡◌, refl, ap, ◌∙◌}
use mathlib.Core.Logic.{inl, inr}
use mathlib.Core.List.{List, [], ◌∷◌, ◌++◌, append_assoc, append-nil}
use mathlib.Core.Option.{some}
use native.Mathlib.Omega.{arith}
use text.Mathlib.TextLemmas.{nil-append, cons-append}
use encodeswarmr.Prelude.Int.{pos}
use encodeswarmr.Prelude.Tests.{ltb, Bool-cases}
use encodeswarmr.Prelude.Text.{codes, digit, decimal_from, digits_value, some_digits, atoi, int_max}

pub codes-append : (s t : String) → codes (append s t) ≡ codes s ++ codes t
codes-append String.[] t = ap codes (nil-append t)
codes-append (String.◌∷◌ c s) t =
    ap codes (cons-append c s t) ∙ ap (λ r. code c ∷ r) (codes-append s t)

codes-digit : (n : ℕ) → n < 10 → codes (digit n) ≡ (b'0' + n) ∷ []
unfolding digit
codes-digit zero h = refl
codes-digit (suc zero) h = refl
codes-digit (suc (suc zero)) h = refl
codes-digit (suc (suc (suc zero))) h = refl
codes-digit (suc (suc (suc (suc zero)))) h = refl
codes-digit (suc (suc (suc (suc (suc zero))))) h = refl
codes-digit (suc (suc (suc (suc (suc (suc zero)))))) h = refl
codes-digit (suc (suc (suc (suc (suc (suc (suc zero))))))) h = refl
codes-digit (suc (suc (suc (suc (suc (suc (suc (suc zero)))))))) h = refl
codes-digit (suc (suc (suc (suc (suc (suc (suc (suc (suc zero))))))))) h = refl
codes-digit (suc (suc (suc (suc (suc (suc (suc (suc (suc (suc n)))))))))) h = absurd (omega arith)

-- One digit read after a number.
value_step :
    (acc d : ℕ) (rest : List ℕ)
    → d < 10
    → digits_value acc ((b'0' + d) ∷ rest) ≡ digits_value (acc * 10 + d) rest
unfolding digits_value
value_step acc d rest h = ground arith

-- The digits of a number, read in front of any others.
value-decimal :
    (fuel n : ℕ) (rest : List ℕ)
    → n ≤ fuel
    → digits_value 0 (codes (decimal_from fuel n) ++ rest) ≡ digits_value n rest
unfolding decimal_from
value-decimal zero n rest h =
    rw (codes-digit (n % 10) (omega arith), value_step 0 (n % 10) rest (omega arith))
      (ap (λ k. digits_value k rest) (omega arith))
value-decimal (suc fuel) n rest h = elim (Bool-cases (ltb n 10)) [
  | inl e ↦
      rw (e, codes-digit n (ground arith), value_step 0 n rest (ground arith))
        (ap (λ k. digits_value k rest) (omega arith))
  | inr e ↦
      rw
        (
          e,
          codes-append (decimal_from fuel (n / 10)) (digit (n % 10)),
          append_assoc,
          codes-digit (n % 10) (omega arith),
          value-decimal fuel (n / 10) ((b'0' + n % 10) ∷ rest) (ground arith),
          value_step (n / 10) (n % 10) rest (omega arith),
        )
        (ap (λ k. digits_value k rest) (omega arith))
]

-- A text that begins with a digit.
abbrev Begins : List ℕ → Type 0
Begins cs = (c : ℕ) × (r : List ℕ) × (cs ≡ c ∷ r) × (b'0' ≤ c)

Begins-digit : (n : ℕ) → n < 10 → Begins (codes (digit n))
Begins-digit n h = (b'0' + n, [], codes-digit n h, omega arith)

decimal-Begins : (fuel n : ℕ) → Begins (codes (decimal_from fuel n))
unfolding decimal_from
decimal-Begins zero n = Begins-digit (n % 10) (omega arith)
decimal-Begins (suc fuel) n = elim (Bool-cases (ltb n 10)) [
  | inl e ↦ rw e (Begins-digit n (ground arith))
  | inr e ↦
      let (c, r, k, d) = decimal-Begins fuel (n / 10) in
      rw (e, codes-append (decimal_from fuel (n / 10)) (digit (n % 10)), k)
        (c, r ++ codes (digit (n % 10)), refl, d)
]

-- Digits are read as they stand, without a sign.
atoi-digits :
    (c n : ℕ) (cs : List ℕ)
    → b'0' ≤ c
    → digits_value 0 (c ∷ cs) ≡ some n
    → n ≤ int_max
    → atoi (c ∷ cs) ≡ some (pos n)
unfolding atoi some_digits
atoi-digits c n cs d v h = ground arith

-- A number is read back from its decimal print.
pub atoi-decimal_from : (n : ℕ) → n ≤ int_max → atoi (codes (decimal_from n n)) ≡ some (pos n)
unfolding digits_value
atoi-decimal_from n h =
    let (c, r, k, d) = decimal-Begins n n in
    let v = value-decimal n n [] (omega arith) in
    rw k (atoi-digits c n r d (ground (arith, append-nil (codes (decimal_from n n)), v, k)) h)
