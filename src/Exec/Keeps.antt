-- ===== src/Exec/Keeps.antt =====
-- Invariants of the database through a handler, whichever calls of the store fail: a rule for each
-- construct, and the set of rules that `search` applies to a handler.
use encodeswarmr.Prelude.{ℕ, Bool, true, false, List, [], ◌∷◌, Option, none, some, if◌then◌else◌}
use encodeswarmr.Db.Types.{Db}
use encodeswarmr.Exec.{
  Exec, Stmt, World, Result, ok, err, Err, Event, Goroutine, pure, raise, call, catch, ignore,
  or_internal, emit, spawn, ◌>>=◌, attempt_with, continue, clean_up, or_fail, outside,
}

-- `s` keeps `P` at any time.
pub record StmtKeeps {ℓ} {A : Type ℓ} (P : Db → Type 0) (s : Stmt A) : Type ℓ where
  pub at : (now : ℕ) (db : Db) → P db → P (s now db).1

-- `m` keeps `P` in any world: it returns or fails, and any of its calls may fail.
pub record Keeps {ℓ} {A : Type ℓ} (P : Db → Type 0) (m : Exec A) : Type ℓ where
  pub at : (w : World) → P w.db → P (m w).1.db

module _ {ℓ} {A : Type ℓ} {P : Db → Type 0} where
  pub Keeps-pure : (a : A) → Keeps P (pure a)
  unfolding pure
  Keeps-pure a = record { at = λ w h. h }

  pub Keeps-raise : (e : Err) → Keeps P (raise {A = A} e)
  unfolding raise
  Keeps-raise e = record { at = λ w h. h }

  attempt_with-keeps :
      (s : Stmt A)
      → StmtKeeps P s
      → (faults : List Bool) (w : World) → P w.db
      → P (attempt_with s faults w).1.db
  attempt_with-keeps s k [] w h = k.at w.now w.db h
  attempt_with-keeps s k (true ∷ rest) w h = h
  attempt_with-keeps s k (false ∷ rest) w h = k.at w.now w.db h

  pub Keeps-call : (s : Stmt A) → StmtKeeps P s → Keeps P (call s)
  unfolding call
  Keeps-call s k = record { at = λ w h. attempt_with-keeps s k w.faults w h }

  pub Keeps-catch : (m : Exec A) → Keeps P m → Keeps P (catch m)
  unfolding catch
  Keeps-catch m k = record { at = λ w h. k.at w h }

  pub Keeps-or_internal : (m : Exec A) → Keeps P m → Keeps P (or_internal m)
  unfolding or_internal
  Keeps-or_internal m k = record { at = λ w h. k.at w h }

  pub Keeps-ignore : (m : Exec A) → Keeps P m → Keeps P (ignore m)
  unfolding ignore
  Keeps-ignore m k = record { at = λ w h. k.at w h }

  pub Keeps-if : (b : Bool) (m k : Exec A) → Keeps P m → Keeps P k → Keeps P (if b then m else k)
  Keeps-if true m k km kk = km
  Keeps-if false m k km kk = kk

  pub Keeps-option {κ} :
      {B : Type κ} (o : Option B) (f : B → Exec A) (k : Exec A)
      → ((b : B) → Keeps P (f b))
      → Keeps P k
      → Keeps P (elim o [ none ↦ k | some b ↦ f b ])
  Keeps-option none f k kf kk = kk
  Keeps-option (some b) f k kf kk = kf b

module _ {ℓ} {A : Type ℓ} {P : Db → Type 0} where
  clean_up-keeps :
      (r : Result A) (c : Exec (Unit {0})) (w : World)
      → Keeps P c
      → P w.db
      → P (clean_up r c w).1.db
  clean_up-keeps (ok a) c w kc h = h
  clean_up-keeps (err e) c w kc h = kc.at w h

  pub Keeps-or_fail :
      (m : Exec A) (c : Exec (Unit {0})) → Keeps P m → Keeps P c → Keeps P (or_fail m c)
  unfolding or_fail
  Keeps-or_fail m c km kc = record {
    at = λ w h. let (r, w') = m w in clean_up-keeps r c w' kc (km.at w h);
  }

  pub Keeps-outside : (o : Option A) → Keeps P (outside o)
  unfolding outside
  Keeps-outside none = record { at = λ w h. h }
  Keeps-outside (some a) = record { at = λ w h. h }

module _ {P : Db → Type 0} where
  pub Keeps-emit : (e : Event) → Keeps P (emit e)
  unfolding emit
  Keeps-emit e = record { at = λ w h. h }

  pub Keeps-spawn : (g : Goroutine) → Keeps P (spawn g)
  unfolding spawn
  Keeps-spawn g = record { at = λ w h. h }

module _ {ℓ κ} {A : Type ℓ} {B : Type κ} {P : Db → Type 0} where
  continue-keeps :
      (r : Result A) (f : A → Exec B) (w : World)
      → ((a : A) → Keeps P (f a))
      → P w.db
      → P (continue r f w).1.db
  continue-keeps (ok a) f w kf h = (kf a).at w h
  continue-keeps (err e) f w kf h = h

  pub Keeps-bind :
      (m : Exec A) (f : A → Exec B) → Keeps P m → ((a : A) → Keeps P (f a)) → Keeps P (m >>= f)
  unfolding ◌>>=◌
  Keeps-bind m f km kf = record {
    at = λ w h. let (r, w') = m w in continue-keeps r f w' kf (km.at w h);
  }

pub ruleset keeps_rules = (
  Keeps-pure, Keeps-raise, Keeps-call, Keeps-catch, Keeps-or_internal, Keeps-ignore, Keeps-if,
  Keeps-option, Keeps-emit, Keeps-spawn, Keeps-bind, Keeps-or_fail, Keeps-outside,
)
