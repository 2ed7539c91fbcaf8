-- ===== src/Exec/Steps.antt =====
-- Reading a run of a `do` block backwards: what its parts returned if the whole returned a value.
use cwapper.Base.{Bool, true, false, ◌≡◌, refl}
use cwapper.Types.{Status}
use cwapper.Exec.{Exec, Result, ok, err, continue, refuse, ◌>>=◌, ◌>>◌}

module _ {ℓ} {S A B : Type ℓ} where
  continue-eq-ok :
      (r : Result A) (f : A → Exec S B) (u t : S) (b : B)
      → continue r f u ≡ (ok b, t)
      → (a : A) × (r ≡ ok a) × (f a u ≡ (ok b, t))
  continue-eq-ok (ok a) f u t b h = (a, refl, h)
  continue-eq-ok (err e) f u t b h = cc

  pub >>=-eq-ok :
      (m : Exec S A) (f : A → Exec S B) (s t : S) (b : B)
      → (m >>= f) s ≡ (ok b, t)
      → (a : A) × ((m s).0 ≡ ok a) × (f a (m s).1 ≡ (ok b, t))
  >>=-eq-ok m f s t b h = continue-eq-ok (m s).0 f (m s).1 t b h

module _ {S A : Type 0} where
  -- A block that goes on after `if (b) return e;`.
  pub refuse-bind :
      (b : Bool) (e : Status) (k : Exec S A) (s t : S) (a : A)
      → (refuse b e >> k) s ≡ (ok a, t)
      → (b ≡ false) × (k s ≡ (ok a, t))
  refuse-bind true e k s t a h = cc
  refuse-bind false e k s t a h = (refl, h)
