-- ===== src/Exec/Quiet.antt =====
-- Events through a handler: computations that send none, and computations that send at most one.
use encodeswarmr.Prelude.{
  Bool, true, false, List, [], ◌∷◌, ◌≡◌, refl, sym, ◌∙◌, ◌⊎◌, inl, inr, Option, none, some,
  if◌then◌else◌,
}
use encodeswarmr.Exec.{
  Exec, Stmt, World, Result, ok, err, Err, Event, Goroutine, pure, raise, call, catch, ignore,
  or_internal, emit, spawn, ◌>>=◌, attempt_with, continue,
}

-- `m` sends no event.
pub record IsQuiet {ℓ} {A : Type ℓ} (m : Exec A) : Type ℓ where
  pub at : (w : World) → (m w).1.events ≡ w.events

-- `m` sends no event, or one that satisfies `Q`.
pub record Announces {ℓ} {A : Type ℓ} (Q : Event → Type 0) (m : Exec A) : Type ℓ where
  pub at :
      (w : World)
      → ((m w).1.events ≡ w.events) ⊎ ((e : Event) × ((m w).1.events ≡ e ∷ w.events) × Q e)

module _ {ℓ} {A : Type ℓ} where
  attempt_with-events :
      (s : Stmt A) (faults : List Bool) (w : World) → (attempt_with s faults w).1.events ≡ w.events
  attempt_with-events s [] w = refl
  attempt_with-events s (true ∷ rest) w = refl
  attempt_with-events s (false ∷ rest) w = refl

  pub IsQuiet-call : (s : Stmt A) → IsQuiet (call s)
  unfolding call
  IsQuiet-call s = record { at = λ w. attempt_with-events s w.faults w }

  pub IsQuiet-pure : (a : A) → IsQuiet (pure a)
  unfolding pure
  IsQuiet-pure a = record { at = λ w. refl }

  pub IsQuiet-raise : (e : Err) → IsQuiet (raise {A = A} e)
  unfolding raise
  IsQuiet-raise e = record { at = λ w. refl }

  pub IsQuiet-catch : (m : Exec A) → IsQuiet m → IsQuiet (catch m)
  unfolding catch
  IsQuiet-catch m q = record { at = λ w. q.at w }

  pub IsQuiet-or_internal : (m : Exec A) → IsQuiet m → IsQuiet (or_internal m)
  unfolding or_internal
  IsQuiet-or_internal m q = record { at = λ w. q.at w }

  pub IsQuiet-ignore : (m : Exec A) → IsQuiet m → IsQuiet (ignore m)
  unfolding ignore
  IsQuiet-ignore m q = record { at = λ w. q.at w }

  pub IsQuiet-if : (b : Bool) (m k : Exec A) → IsQuiet m → IsQuiet k → IsQuiet (if b then m else k)
  IsQuiet-if true m k qm qk = qm
  IsQuiet-if false m k qm qk = qk

  pub IsQuiet-option {κ} :
      {B : Type κ} (o : Option B) (f : B → Exec A) (k : Exec A)
      → ((b : B) → IsQuiet (f b))
      → IsQuiet k
      → IsQuiet (elim o [ none ↦ k | some b ↦ f b ])
  IsQuiet-option none f k qf qk = qk
  IsQuiet-option (some b) f k qf qk = qf b

  pub Announces-quiet : (Q : Event → Type 0) (m : Exec A) → IsQuiet m → Announces Q m
  Announces-quiet Q m q = record { at = λ w. inl (q.at w) }

  pub Announces-if :
      (Q : Event → Type 0) (b : Bool) (m k : Exec A)
      → (b ≡ true → Announces Q m)
      → (b ≡ false → Announces Q k)
      → Announces Q (if b then m else k)
  Announces-if Q true m k am ak = am refl
  Announces-if Q false m k am ak = ak refl

  pub Announces-option {κ} :
      (Q : Event → Type 0) {B : Type κ} (o : Option B) (f : B → Exec A) (k : Exec A)
      → ((b : B) → Announces Q (f b))
      → Announces Q k
      → Announces Q (elim o [ none ↦ k | some b ↦ f b ])
  Announces-option Q none f k af ak = ak
  Announces-option Q (some b) f k af ak = af b

pub IsQuiet-spawn : (g : Goroutine) → IsQuiet (spawn g)
unfolding spawn
IsQuiet-spawn g = record { at = λ w. refl }

pub Announces-emit : (Q : Event → Type 0) (e : Event) → Q e → Announces Q (emit e)
unfolding emit
Announces-emit Q e q = record { at = λ w. inr (e, refl, q) }

module _ {ℓ κ} {A : Type ℓ} {B : Type κ} where
  quiet_continue :
      (r : Result A) (f : A → Exec B) (w : World)
      → ((a : A) → IsQuiet (f a))
      → (continue r f w).1.events ≡ w.events
  quiet_continue (ok a) f w q = (q a).at w
  quiet_continue (err e) f w q = refl

  pub IsQuiet-bind :
      (m : Exec A) (f : A → Exec B) → IsQuiet m → ((a : A) → IsQuiet (f a)) → IsQuiet (m >>= f)
  unfolding ◌>>=◌
  IsQuiet-bind m f qm qf = record {
    at = λ w. let (r, w') = m w in quiet_continue r f w' qf ∙ qm.at w;
  }

  announce_continue :
      (Q : Event → Type 0) (r : Result A) (f : A → Exec B) (w w' : World)
      → w'.events ≡ w.events
      → ((a : A) → Announces Q (f a))
      → ((continue r f w').1.events ≡ w.events)
        ⊎ ((e : Event) × ((continue r f w').1.events ≡ e ∷ w.events) × Q e)
  announce_continue Q (ok a) f w w' h q = elim ((q a).at w') [
    | inl k ↦ inl (k ∙ h)
    | inr (e, k, p) ↦ inr (e, (rw (sym h) k), p)
  ]
  announce_continue Q (err x) f w w' h q = inl h

  pub Announces-bind :
      (Q : Event → Type 0) (m : Exec A) (f : A → Exec B)
      → IsQuiet m
      → ((a : A) → Announces Q (f a))
      → Announces Q (m >>= f)
  unfolding ◌>>=◌
  Announces-bind Q m f qm qf = record {
    at = λ w. let (r, w') = m w in announce_continue Q r f w w' (qm.at w) qf;
  }

pub ruleset quiet_rules = (
  IsQuiet-call, IsQuiet-pure, IsQuiet-raise, IsQuiet-catch, IsQuiet-or_internal, IsQuiet-ignore,
  IsQuiet-if, IsQuiet-option, IsQuiet-spawn, IsQuiet-bind,
)
