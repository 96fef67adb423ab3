-- ===== src/Engine/Float.antt =====
-- float64, of which nothing is assumed: the chunks come out right whatever the rounding does.
use encodeswarmr.Prelude.{ℕ, ℤ, pos, ◌+◌, ◌*◌, ◌/◌, Bool, leb, pos_part}

pub record Float : Type 1 where
  pub F : Type 0
  pub zero_f : F
  pub one_f : F
  pub add_f : F → F → F
  pub mul_f : F → F → F
  pub div_f : F → F → F
  pub le_f : F → F → Bool
  pub of_int : ℤ → F
  -- int(math.Round(x))
  pub round_int : F → ℤ

-- An instance on which the code runs: natural numbers, whose quotients are cut off.
abbrev pub whole : Float
whole = record {
  F = ℕ;
  zero_f = 0;
  one_f = 1;
  add_f = λ a b. a + b;
  mul_f = λ a b. a * b;
  div_f = λ a b. a / b;
  le_f = λ a b. leb a b;
  of_int = λ z. pos_part z;
  round_int = λ n. pos n;
}
