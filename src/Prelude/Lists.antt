-- ===== src/Prelude/Lists.antt =====
-- Lists counted and filtered by Boolean tests, over the native numbers.
use Prim.Native.Nat.{ℕ, zero, suc, ◌+◌, ◌≤◌}
use mathlib.Core.Path.{◌≡◌, refl, sym, ap, subst}
use mathlib.Core.Logic.{inl, inr}
use mathlib.Core.Bool.{Bool, true, false}
use mathlib.Core.List.{List, [], ◌∷◌, ◌++◌, Memᴰ}
use mathlib.Core.Option.{Option, none, some}
use native.Mathlib.Omega.{arith}
use encodeswarmr.Prelude.Tests.{if◌then◌else◌, Bool-cases}

module _ {ℓ} {A : Type ℓ} where
  abbrev pub length : List A → ℕ
  length [] = 0
  length (x ∷ xs) = suc (length xs)

  abbrev pub take : ℕ → List A → List A
  take zero xs = []
  take (suc n) [] = []
  take (suc n) (x ∷ xs) = x ∷ take n xs

  pub length-append : (xs ys : List A) → length (xs ++ ys) ≡ length xs + length ys
  length-append [] ys = omega arith
  length-append (x ∷ xs) ys = omega (arith, length-append xs ys)

  -- How many items pass a test: `COUNT(*) ... WHERE`.
  unfoldable pub count_if : (A → Bool) → List A → ℕ
  count_if p [] = 0
  count_if p (x ∷ xs) = let rest = count_if p xs in if p x then suc rest else rest

  -- The items that pass a test, in order: `SELECT ... WHERE`.
  unfoldable pub select : (A → Bool) → List A → List A
  select p [] = []
  select p (x ∷ xs) = let rest = select p xs in if p x then x ∷ rest else rest

  -- The first item that passes a test.
  unfoldable pub find_first : (A → Bool) → List A → Option A
  find_first p [] = none
  find_first p (x ∷ xs) = let rest = find_first p xs in if p x then some x else rest

  unfoldable pub any_of : (A → Bool) → List A → Bool
  any_of p [] = false
  any_of p (x ∷ xs) = let rest = any_of p xs in if p x then true else rest

  -- Rewrites the items that pass a test: `UPDATE ... WHERE`.
  unfoldable pub update_where : (A → Bool) → (A → A) → List A → List A
  update_where p f [] = []
  update_where p f (x ∷ xs) = (if p x then f x else x) ∷ update_where p f xs

  -- Every item satisfies a predicate.
  abbrev pub All {κ} : (A → Type κ) → List A → Type κ
  All P [] = Unit
  All P (x ∷ xs) = P x × All P xs

module _ {ℓ} {A : Type ℓ} where
  pub count_if-append :
      (p : A → Bool) (xs ys : List A) → count_if p (xs ++ ys) ≡ count_if p xs + count_if p ys
  unfolding count_if
  count_if-append p [] ys = omega arith
  count_if-append p (x ∷ xs) ys = ground (arith, count_if-append p xs ys)

  pub count_if-le-length : (p : A → Bool) (xs : List A) → count_if p xs ≤ length xs
  unfolding count_if
  count_if-le-length p [] = omega arith
  count_if-le-length p (x ∷ xs) = ground (arith, count_if-le-length p xs)

  pub find_first-passes :
      (p : A → Bool) (xs : List A) {x : A} → find_first p xs ≡ some x → p x ≡ true
  unfolding find_first
  find_first-passes p [] h = ground arith
  find_first-passes p (y ∷ xs) {x} h = ground (arith, find_first-passes p xs {x = x})

  pub find_first-none : (p : A → Bool) (xs : List A) → find_first p xs ≡ none → count_if p xs ≡ 0
  unfolding find_first count_if
  find_first-none p [] h = refl
  find_first-none p (y ∷ xs) h = ground (arith, find_first-none p xs)

  pub length-update_where :
      (p : A → Bool) (f : A → A) (xs : List A) → length (update_where p f xs) ≡ length xs
  unfolding update_where
  length-update_where p f [] = refl
  length-update_where p f (x ∷ xs) = ap suc (length-update_where p f xs)

  pub All-append {κ} : (P : A → Type κ) (xs ys : List A) → All P xs → All P ys → All P (xs ++ ys)
  All-append P [] ys h k = k
  All-append P (x ∷ xs) ys h k = (h.0, All-append P xs ys h.1 k)

  pub All-select {κ} :
      (P : A → Type κ) (p : A → Bool) (xs : List A) → All P xs → All P (select p xs)
  unfolding select
  All-select P p [] h = tt
  All-select P p (x ∷ xs) h = elim (Bool-cases (p x)) [
    | inl e ↦ rw e (h.0, All-select P p xs h.1)
    | inr e ↦ rw e (All-select P p xs h.1)
  ]

  pub All-update_where {κ} :
      (P : A → Type κ) (p : A → Bool) (f : A → A) (xs : List A)
      → ((x : A) → p x ≡ true → P x → P (f x))
      → All P xs
      → All P (update_where p f xs)
  unfolding update_where
  All-update_where P p f [] k h = tt
  All-update_where P p f (x ∷ xs) k h = elim (Bool-cases (p x)) [
    | inl e ↦ (rw e (k x e h.0), All-update_where P p f xs k h.1)
    | inr e ↦ (rw e h.0, All-update_where P p f xs k h.1)
  ]

  pub All-at {κ} : (P : A → Type κ) (xs : List A) {x : A} → All P xs → Memᴰ x xs → P x
  All-at P [] h m = elim m [ ]
  All-at P (y ∷ xs) {x} h (Memᴰ.head e) = subst P (sym e) h.0
  All-at P (y ∷ xs) {x} h (Memᴰ.tail m) = All-at P xs h.1 m

  pub find_first-any_of :
      (p : A → Bool) (xs : List A) {x : A} → find_first p xs ≡ some x → any_of p xs ≡ true
  unfolding find_first any_of
  find_first-any_of p [] h = ground arith
  find_first-any_of p (y ∷ xs) {x} h = ground (arith, find_first-any_of p xs {x = x})

  pub find_first-absent :
      (p : A → Bool) (xs : List A) → find_first p xs ≡ none → any_of p xs ≡ false
  unfolding find_first any_of
  find_first-absent p [] h = refl
  find_first-absent p (x ∷ xs) h = ground (arith, find_first-absent p xs)

  pub find_first-update_where :
      (p : A → Bool) (f : A → A) (xs : List A)
      → ((x : A) → p (f x) ≡ p x)
      → find_first p (update_where p f xs)
        ≡ elim (find_first p xs) [ none ↦ none | some x ↦ some (f x) ]
  unfolding find_first update_where
  find_first-update_where p f [] k = refl
  find_first-update_where p f (x ∷ xs) k = elim (Bool-cases (p x)) [
    | inl e ↦ rw (e, k x, e) refl
    | inr e ↦ rw (e, e, find_first-update_where p f xs k) refl
  ]

  pub find_first-append_one :
      (p : A → Bool) (xs : List A) (y : A)
      → any_of p xs ≡ false
      → p y ≡ true
      → find_first p (xs ++ y ∷ []) ≡ some y
  unfolding find_first any_of
  find_first-append_one p [] y h k = ground arith
  find_first-append_one p (x ∷ xs) y h k = ground (arith, find_first-append_one p xs y)

  -- An update of the items that pass one test, by which no item passes another test.
  pub count_if-cleared :
      (p q : A → Bool) (f : A → A) (xs : List A)
      → ((x : A) → p x ≡ true → q (f x) ≡ false)
      → ((x : A) → p x ≡ false → q x ≡ false)
      → count_if q (update_where p f xs) ≡ 0
  unfolding count_if update_where
  count_if-cleared p q f [] on off = refl
  count_if-cleared p q f (x ∷ xs) on off = elim (Bool-cases (p x)) [
    | inl e ↦ rw (e, on x e) (count_if-cleared p q f xs on off)
    | inr e ↦ rw (e, off x e) (count_if-cleared p q f xs on off)
  ]

  pub count_if-none :
      (p q : A → Bool) (xs : List A)
      → ((x : A) → p x ≡ false → q x ≡ false)
      → any_of p xs ≡ false
      → count_if q xs ≡ 0
  unfolding count_if any_of
  count_if-none p q [] off h = refl
  count_if-none p q (x ∷ xs) off h = elim (Bool-cases (p x)) [
    | inl e ↦ absurd (ground arith)
    | inr e ↦ rw (off x e) (count_if-none p q xs off (ground arith))
  ]
