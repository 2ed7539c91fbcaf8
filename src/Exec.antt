-- ===== src/Exec.antt =====
-- Functions that return a flagsparseStatus_t and change state on the way. `if (Status s = f()) return s;`
-- is a bind: what was written before the early return stays written.
pub mod Accepts
pub mod Keeps
pub mod Leaves
pub mod Steps
use cwapper.Base.{Bool, true, false}
use cwapper.Types.{Status, success}

pub data Result {ℓ} (A : Type ℓ) : Type ℓ where
  ok : A → Result A
  err : Status → Result A

abbrev pub Exec {ℓ} : Type ℓ → Type ℓ → Type ℓ
Exec S A = S → Result A × S

-- The status that a C entry point returns.
abbrev pub status {ℓ} : {A : Type ℓ} → Result A → Status
status (ok a) = success
status (err e) = e

module _ {ℓ} {S A : Type ℓ} where
  abbrev pub pure : A → Exec S A
  pure a s = (ok a, s)

  -- return e;
  abbrev pub fail : Status → Exec S A
  fail e s = (err e, s)

  abbrev pub lift : Result A → Exec S A
  lift r s = (r, s)

  abbrev pub gets : (S → A) → Exec S A
  gets f s = (ok (f s), s)

module _ {ℓ} {S A B : Type ℓ} where
  abbrev pub continue : Result A → (A → Exec S B) → Exec S B
  continue (ok a) f s = f a s
  continue (err e) f s = (err e, s)

  infixl 5 ◌>>=◌ ◌>>◌
  abbrev pub ◌>>=◌ : Exec S A → (A → Exec S B) → Exec S B
  ◌>>=◌ m f s = continue (m s).0 f (m s).1

  abbrev pub ◌>>◌ : Exec S A → Exec S B → Exec S B
  m >> k = m >>= λ _. k

module _ {S : Type 0} where
  abbrev pub modify : (S → S) → Exec S (Unit {0})
  modify f s = (ok tt, f s)

  -- if (b) return e;
  abbrev pub refuse : Bool → Status → Exec S (Unit {0})
  refuse true e s = (err e, s)
  refuse false e s = (ok tt, s)
