-- ===== src/Exec/Keeps.antt =====
-- Invariants of functions with state: one rule for each way that the code is put together.
use cwapper.Base.{Bool, true, false, ◌≡◌, refl, if◌then◌else◌}
use cwapper.Types.{Status}
use cwapper.Exec.Accepts.{Accepts}
use cwapper.Exec.{Exec, Result, ok, err, pure, fail, gets, lift, modify, refuse, continue, ◌>>=◌}

-- `m` keeps `P`, whatever it returns.
pub record Keeps {ℓ} {S A : Type ℓ} (Inv : S → Type ℓ) (m : Exec S A) : Type ℓ where
  pub at : (s : S) → Inv s → Inv (m s).1

module _ {ℓ} {S A : Type ℓ} {P : S → Type ℓ} where
  pub Keeps-fail : (e : Status) → Keeps P (fail {S = S} {A = A} e)
  Keeps-fail e = record { at = λ s h. h }

  pub Keeps-lift : (r : Result A) → Keeps P (lift {S = S} r)
  Keeps-lift r = record { at = λ s h. h }

  pub Keeps-pure : (a : A) → Keeps P (pure {S = S} a)
  Keeps-pure a = record { at = λ s h. h }

  pub Keeps-gets : (f : S → A) → Keeps P (gets f)
  Keeps-gets f = record { at = λ s h. h }

  pub Keeps-if : (b : Bool) (m n : Exec S A) → Keeps P m → Keeps P n → Keeps P (if b then m else n)
  Keeps-if true m n km kn = km
  Keeps-if false m n km kn = kn

module _ {ℓ} {S A B : Type ℓ} {P : S → Type ℓ} where
  Keeps-continue :
      (r : Result A) (f : A → Exec S B) (s : S)
      → ((a : A) → r ≡ ok a → Keeps P (f a))
      → P s
      → P (continue r f s).1
  Keeps-continue (ok a) f s k h = (k a refl).at s h
  Keeps-continue (err e) f s k h = h

  pub Keeps-bind :
      (m : Exec S A) (f : A → Exec S B) → Keeps P m → ((a : A) → Keeps P (f a)) → Keeps P (m >>= f)
  Keeps-bind m f km kf = record {
    at = λ s h. Keeps-continue (m s).0 f (m s).1 (λ a _. kf a) (km.at s h);
  }

module _ {ℓ} {S A B : Type ℓ} (P : S → Type ℓ) where
  -- The rest of the block may use what the first part returned, and from which state.
  Keeps-continue-ok :
      (r : Result A) (f : A → Exec S B) (t : S)
      → P t
      → ((a : A) → r ≡ ok a → P (f a t).1)
      → P (continue r f t).1
  Keeps-continue-ok (ok a) f t h k = k a refl
  Keeps-continue-ok (err e) f t h k = h

module _ {ℓ} {S A B : Type ℓ} {P : S → Type ℓ} where
  pub Keeps-bind-ok :
      (m : Exec S A) (f : A → Exec S B)
      → Keeps P m
      → ((s : S) (a : A) → P s → (m s).0 ≡ ok a → P (m s).1 → P (f a (m s).1).1)
      → Keeps P (m >>= f)
  Keeps-bind-ok m f km kf = record {
    at = λ s h. Keeps-continue-ok P (m s).0 f (m s).1 (km.at s h) (λ a e. kf s a h e (km.at s h));
  }

module _ {ℓ} {S A B : Type ℓ} {P : S → Type ℓ} {Q : Type ℓ} where
  -- The rest of the block may use what the checks of the first part say.
  pub Keeps-bind-Accepts :
      (m : Exec S A) (f : A → Exec S B)
      → Keeps P m
      → ((s : S) → Accepts Q m s)
      → ((a : A) → Q → Keeps P (f a))
      → Keeps P (m >>= f)
  Keeps-bind-Accepts m f km checks kf =
      Keeps-bind-ok m f km (λ s a h e k. (kf a ((checks s).at a e)).at (m s).1 k)

module _ {ℓ} {S A B : Type ℓ} {P : S → Type ℓ} where
  -- What was looked up is that of the state it was looked up in.
  pub Keeps-gets-bind :
      (g : S → A) (f : A → Exec S B) → ((s : S) → P s → Keeps P (f (g s))) → Keeps P (gets g >>= f)
  Keeps-gets-bind g f k = record { at = λ s h. (k s h).at s h }

module _ {S : Type 0} {P : S → Type 0} where
  pub Keeps-refuse : (b : Bool) (e : Status) → Keeps P (refuse {S = S} b e)
  Keeps-refuse true e = record { at = λ s h. h }
  Keeps-refuse false e = record { at = λ s h. h }

  -- What follows `if (b) return e;` may rely on the test.
  pub Keeps-refuse-bind :
      {B : Type 0} (b : Bool) (e : Status) (f : Unit {0} → Exec S B)
      → (b ≡ false → Keeps P (f tt))
      → Keeps P (refuse {S = S} b e >>= f)
  Keeps-refuse-bind true e f k = record { at = λ s h. h }
  Keeps-refuse-bind false e f k = k refl

  pub Keeps-modify : (f : S → S) → ((s : S) → P s → P (f s)) → Keeps P (modify f)
  Keeps-modify f k = record { at = k }

pub ruleset keeps_rules =
    (Keeps-pure, Keeps-fail, Keeps-gets, Keeps-lift, Keeps-if, Keeps-bind, Keeps-refuse)
