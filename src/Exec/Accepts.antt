-- ===== src/Exec/Accepts.antt =====
-- What a function that returned a value must have tested: one rule for each way that the checks are
-- put together.
use cwapper.Base.{Bool, true, false, ◌≡◌, refl, subst}
use cwapper.Types.{Status}
use cwapper.Exec.{Exec, Result, ok, err, pure, gets, refuse, continue, ◌>>=◌}

-- If `m` returns a value from `s`, then `Q` holds.
pub record Accepts {ℓ} {S A : Type ℓ} (Q : Type ℓ) (m : Exec S A) (s : S) : Type ℓ where
  pub at : (a : A) → (m s).0 ≡ ok a → Q

module _ {ℓ} {S A : Type ℓ} {Q : Type ℓ} where
  pub Accepts-now : (m : Exec S A) (s : S) → Q → Accepts Q m s
  Accepts-now m s q = record { at = λ a h. q }

module _ {ℓ} {S A B : Type ℓ} {Q : Type ℓ} where
  pub Accepts-gets :
      (g : S → A) (f : A → Exec S B) (s : S) → Accepts Q (f (g s)) s → Accepts Q (gets g >>= f) s
  Accepts-gets g f s k = record { at = k.at }

module _ {ℓ} {S A B : Type ℓ} {Q : Type ℓ} where
  Accepts-continue :
      (r : Result A) (f : A → Exec S B) (t : S)
      → ((a : A) → Accepts Q (f a) t)
      → (b : B) → (continue r f t).0 ≡ ok b
      → Q
  Accepts-continue (ok a) f t k b h = (k a).at b h
  Accepts-continue (err e) f t k b h = cc

  -- What the rest of the block tests, from the state that the first part leaves.
  pub Accepts-after :
      (m : Exec S A) (f : A → Exec S B) (s : S)
      → ((a : A) → Accepts Q (f a) (m s).1)
      → Accepts Q (m >>= f) s
  Accepts-after m f s k = record { at = Accepts-continue (m s).0 f (m s).1 k }

module _ {S B : Type 0} {Q : Type 0} where
  pub Accepts-refuse :
      (b : Bool) (e : Status) (f : Unit {0} → Exec S B) (s : S)
      → (b ≡ false → Accepts Q (f tt) s)
      → Accepts Q (refuse b e >>= f) s
  Accepts-refuse true e f s k = record { at = λ a h. cc }
  Accepts-refuse false e f s k = record { at = (k refl).at }

module _ {S : Type 0} {Q : Type 0} where
  pub Accepts-last :
      (b : Bool) (e : Status) (s : S) → (b ≡ false → Q) → Accepts Q (refuse {S = S} b e) s
  Accepts-last true e s k = record { at = λ a h. cc }
  Accepts-last false e s k = record { at = λ a h. k refl }

pub ruleset accepts_rules = (Accepts-refuse, Accepts-gets, Accepts-last)

-- What `m` returns from `s`, if it returns a value, satisfies `R`.
pub record Returns {ℓ} {S A : Type ℓ} (R : A → Type ℓ) (m : Exec S A) (s : S) : Type ℓ where
  pub at : (a : A) → (m s).0 ≡ ok a → R a

ok_inj {ℓ} : {A : Type ℓ} (a b : A) → ok a ≡ ok b → a ≡ b
ok_inj a b h = cc

module _ {ℓ} {S A : Type ℓ} {R : A → Type ℓ} where
  pub Returns-pure : (a : A) (s : S) → R a → Returns R (pure a) s
  Returns-pure a s h = record { at = λ b e. subst R (ok_inj a b e) h }

module _ {ℓ} {S A B : Type ℓ} {R : B → Type ℓ} where
  Returns-continue :
      (r : Result A) (f : A → Exec S B) (t : S)
      → ((a : A) → Returns R (f a) t)
      → (b : B) → (continue r f t).0 ≡ ok b
      → R b
  Returns-continue (ok a) f t k b h = (k a).at b h
  Returns-continue (err e) f t k b h = cc

  pub Returns-bind :
      (m : Exec S A) (f : A → Exec S B) (s : S)
      → ((a : A) (t : S) → Returns R (f a) t)
      → Returns R (m >>= f) s
  Returns-bind m f s k = record { at = Returns-continue (m s).0 f (m s).1 (λ a. k a (m s).1) }

pub ruleset returns_rules = (Returns-pure, Returns-bind)
