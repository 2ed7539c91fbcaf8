-- ===== src/Exec/Leaves.antt =====
-- What a function leaves in the state when it returns a value, and what it keeps when it does not.
use cwapper.Base.{Bool, true, false, ◌≡◌, refl, sym, subst, if◌then◌else◌}
use cwapper.Types.{Status}
use cwapper.Exec.{Exec, Result, ok, err, pure, lift, gets, modify, refuse, continue, ◌>>=◌}
use cwapper.Exec.Keeps.{Keeps}

-- If `m` returns a value from `s`, the state after it satisfies `R`.
pub record Leaves {ℓ} {S A : Type ℓ} (R : S → Type ℓ) (m : Exec S A) (s : S) : Type ℓ where
  pub at : (a : A) → (m s).0 ≡ ok a → R (m s).1

-- If `m` returns an error, the state after it satisfies `P` still.
pub record Spares {ℓ} {S A : Type ℓ} (P : S → Type ℓ) (m : Exec S A) : Type ℓ where
  pub at : (s : S) (e : Status) → P s → (m s).0 ≡ err e → P (m s).1

module _ {ℓ} {S A B : Type ℓ} {R : S → Type ℓ} where
  Leaves-continue :
      (r : Result A) (f : A → Exec S B) (t : S)
      → ((a : A) → Leaves R (f a) t)
      → (b : B) → (continue r f t).0 ≡ ok b
      → R (continue r f t).1
  Leaves-continue (ok a) f t k b h = (k a).at b h
  Leaves-continue (err e) f t k b h = cc

  pub Leaves-bind :
      (m : Exec S A) (f : A → Exec S B) (s : S)
      → ((a : A) (t : S) → Leaves R (f a) t)
      → Leaves R (m >>= f) s
  Leaves-bind m f s k = record { at = Leaves-continue (m s).0 f (m s).1 (λ a. k a (m s).1) }

  -- Checks that change nothing.
  pub Leaves-skip :
      (m : Exec S A) (f : A → Exec S B) (s : S)
      → (m s).1 ≡ s
      → ((a : A) → Leaves R (f a) s)
      → Leaves R (m >>= f) s
  Leaves-skip m f s same k = record {
    at = Leaves-continue (m s).0 f (m s).1 (λ a. subst (λ t. Leaves R (f a) t) (sym same) (k a));
  }

  pub Leaves-gets :
      (g : S → A) (f : A → Exec S B) (s : S) → Leaves R (f (g s)) s → Leaves R (gets g >>= f) s
  Leaves-gets g f s k = record { at = k.at }

  -- The rest of the block may use the value that was lifted.
  pub Leaves-lift :
      (r : Result A) (f : A → Exec S B) (s : S)
      → ((a : A) → r ≡ ok a → Leaves R (f a) s)
      → Leaves R (lift r >>= f) s
  Leaves-lift (ok a) f s k = k a refl
  Leaves-lift (err e) f s k = record { at = λ b h. cc }

  -- The rest of the block may use what the first part keeps.
  pub Leaves-past :
      (P : S → Type ℓ) (m : Exec S A) (f : A → Exec S B) (s : S)
      → Keeps P m
      → P s
      → ((a : A) (t : S) → P t → Leaves R (f a) t)
      → Leaves R (m >>= f) s
  Leaves-past P m f s keeps h k = record {
    at = Leaves-continue (m s).0 f (m s).1 (λ a. k a (m s).1 (keeps.at s h));
  }

module _ {ℓ} {S A : Type ℓ} {R : S → Type ℓ} where
  pub Leaves-if :
      (b : Bool) (m n : Exec S A) (s : S)
      → (b ≡ true → Leaves R m s)
      → (b ≡ false → Leaves R n s)
      → Leaves R (if b then m else n) s
  Leaves-if true m n s km kn = km refl
  Leaves-if false m n s km kn = kn refl

module _ {ℓ} {S A : Type ℓ} {R : S → Type ℓ} where
  pub Leaves-pure : (a : A) (s : S) → R s → Leaves R (pure a) s
  Leaves-pure a s h = record { at = λ b e. h }

module _ {S B : Type 0} {R : S → Type 0} where
  pub Leaves-refuse :
      (b : Bool) (e : Status) (f : Unit {0} → Exec S B) (s : S)
      → (b ≡ false → Leaves R (f tt) s)
      → Leaves R (refuse b e >>= f) s
  Leaves-refuse true e f s k = record { at = λ a h. cc }
  Leaves-refuse false e f s k = record { at = (k refl).at }

  pub Leaves-write :
      (g : S → S) (f : Unit {0} → Exec S B) (s : S)
      → Leaves R (f tt) (g s)
      → Leaves R (modify g >>= f) s
  Leaves-write g f s k = record { at = k.at }

module _ {S : Type 0} {R : S → Type 0} where
  pub Leaves-modify : (g : S → S) (s : S) → R (g s) → Leaves R (modify g) s
  Leaves-modify g s h = record { at = λ a e. h }

module _ {ℓ} {S A B : Type ℓ} {P : S → Type ℓ} where
  Spares-continue :
      (r : Result A) (f : A → Exec S B) (t : S)
      → P t
      → ((a : A) → Spares P (f a))
      → (e : Status) → (continue r f t).0 ≡ err e
      → P (continue r f t).1
  Spares-continue (ok a) f t h k e q = (k a).at t e h q
  Spares-continue (err d) f t h k e q = h

  pub Spares-bind :
      (m : Exec S A) (f : A → Exec S B)
      → Keeps P m
      → ((a : A) → Spares P (f a))
      → Spares P (m >>= f)
  Spares-bind m f km k = record {
    at = λ s e h q. Spares-continue (m s).0 f (m s).1 (km.at s h) k e q;
  }

module _ {ℓ} {S A : Type ℓ} {P : S → Type ℓ} where
  pub Spares-if :
      (b : Bool) (m n : Exec S A) → Spares P m → Spares P n → Spares P (if b then m else n)
  Spares-if true m n km kn = km
  Spares-if false m n km kn = kn

module _ {S : Type 0} {P : S → Type 0} where
  pub Spares-modify : (g : S → S) → Spares P (modify g)
  Spares-modify g = record { at = λ s e h q. cc }
