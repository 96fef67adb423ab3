-- ===== src/Exec/Inversion.antt =====
-- What a successful computation tells of its parts, whichever calls of the store fail.
use encodeswarmr.Prelude.{◌≡◌, refl, List, [], ◌∷◌, Bool, true, false}
use encodeswarmr.Exec.{Exec, Stmt, World, Result, ok, err, call, attempt_with, continue, ◌>>=◌}

module _ {ℓ} {A : Type ℓ} where
  attempt_with-ok :
      (s : Stmt A) (faults : List Bool) (w : World) {a : A}
      → (attempt_with s faults w).0 ≡ ok a
      → ((s w.now w.db).0 ≡ ok a)
        × ((attempt_with s faults w).1.db ≡ (s w.now w.db).1)
        × ((attempt_with s faults w).1.now ≡ w.now)
  attempt_with-ok s [] w h = (h, refl, refl)
  attempt_with-ok s (true ∷ rest) w h = cc
  attempt_with-ok s (false ∷ rest) w h = (h, refl, refl)

  -- A call that returns has run its statement.
  pub call-ok :
      (s : Stmt A) (w : World) {a : A}
      → (call s w).0 ≡ ok a
      → ((s w.now w.db).0 ≡ ok a)
        × ((call s w).1.db ≡ (s w.now w.db).1)
        × ((call s w).1.now ≡ w.now)
  unfolding call
  call-ok s w h = attempt_with-ok s w.faults w h

module _ {ℓ κ} {A : Type ℓ} {B : Type κ} where
  continue-ok :
      (r : Result A) (f : A → Exec B) (w : World) {b : B}
      → (continue r f w).0 ≡ ok b
      → (a : A) × (r ≡ ok a) × ((f a w).0 ≡ ok b) × (continue r f w ≡ f a w)
  continue-ok (ok a) f w h = (a, refl, h, refl)
  continue-ok (err e) f w h = cc

  -- A chain that returns has gone through its first step.
  pub >>=-ok :
      (m : Exec A) (f : A → Exec B) (w : World) {b : B}
      → ((m >>= f) w).0 ≡ ok b
      → (a : A) × ((m w).0 ≡ ok a) × ((f a (m w).1).0 ≡ ok b) × ((m >>= f) w ≡ f a (m w).1)
  unfolding ◌>>=◌
  >>=-ok m f w h = continue-ok (m w).0 f (m w).1 h
