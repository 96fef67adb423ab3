-- ===== src/Prelude/Keyed.antt =====
-- Tables whose rows differ in a key: kept by inserts of a new key, by deletes, and by updates that
-- leave the key alone.
use mathlib.Core.Path.{◌≡◌, refl, ap, ◌∙◌, fun_ext}
use mathlib.Core.Logic.{inl, inr}
use mathlib.Core.Bool.{Bool, false}
use mathlib.Core.List.{List, [], ◌∷◌, ◌++◌}
use native.Mathlib.Omega.{arith}
use encodeswarmr.Prelude.Tests.{Bool-cases}
use encodeswarmr.Prelude.Lists.{any_of, select, update_where}

-- No two rows agree, by the test.
abbrev pub Distinct {ℓ} : {A : Type ℓ} → (A → A → Bool) → List A → Type 0
Distinct same [] = Unit
Distinct same (x ∷ xs) = (any_of (same x) xs ≡ false) × Distinct same xs

module _ {ℓ} {A : Type ℓ} where
  pub any_of-append_one :
      (p : A → Bool) (xs : List A) (y : A)
      → any_of p xs ≡ false
      → p y ≡ false
      → any_of p (xs ++ y ∷ []) ≡ false
  unfolding any_of
  any_of-append_one p [] y h k = ground arith
  any_of-append_one p (x ∷ xs) y h k = ground (arith, any_of-append_one p xs y)

  pub any_of-select :
      (p q : A → Bool) (xs : List A) → any_of p xs ≡ false → any_of p (select q xs) ≡ false
  unfolding any_of select
  any_of-select p q [] h = refl
  any_of-select p q (x ∷ xs) h = ground (arith, any_of-select p q xs)

  pub any_of-update_where :
      (p q : A → Bool) (f : A → A) (xs : List A)
      → ((x : A) → p (f x) ≡ p x)
      → any_of p (update_where q f xs) ≡ any_of p xs
  unfolding any_of update_where
  any_of-update_where p q f [] k = refl
  any_of-update_where p q f (x ∷ xs) k = ground (arith, k x, any_of-update_where p q f xs k)

  pub Distinct-append_one :
      (same : A → A → Bool) (xs : List A) (y : A)
      → ((a b : A) → same a b ≡ same b a)
      → any_of (same y) xs ≡ false
      → Distinct same xs
      → Distinct same (xs ++ y ∷ [])
  unfolding any_of
  Distinct-append_one same [] y s h d = (refl, tt)
  Distinct-append_one same (x ∷ xs) y s h d = (
    any_of-append_one (same x) xs y d.0 (ground (arith, s x y)),
    Distinct-append_one same xs y s (ground arith) d.1,
  )

  pub Distinct-select :
      (same : A → A → Bool) (q : A → Bool) (xs : List A)
      → Distinct same xs
      → Distinct same (select q xs)
  unfolding select
  Distinct-select same q [] d = tt
  Distinct-select same q (x ∷ xs) d = elim (Bool-cases (q x)) [
    | inl e ↦ rw e (any_of-select (same x) q xs d.0, Distinct-select same q xs d.1)
    | inr e ↦ rw e (Distinct-select same q xs d.1)
  ]

  pub Distinct-update_where :
      (same : A → A → Bool) (q : A → Bool) (f : A → A) (xs : List A)
      → ((a b : A) → same (f a) b ≡ same a b)
      → ((a b : A) → same a (f b) ≡ same a b)
      → Distinct same xs
      → Distinct same (update_where q f xs)
  unfolding update_where
  Distinct-update_where same q f [] l r d = tt
  Distinct-update_where same q f (x ∷ xs) l r d = (
    elim (Bool-cases (q x)) [
      | inl e ↦ rw e (
          any_of-update_where (same (f x)) q f xs (λ y. r (f x) y)
          ∙ ap (λ p. any_of p xs) (fun_ext (l x))
          ∙ d.0)
      | inr e ↦ rw e (any_of-update_where (same x) q f xs (λ y. r x y) ∙ d.0)
    ],
    Distinct-update_where same q f xs l r d.1,
  )
