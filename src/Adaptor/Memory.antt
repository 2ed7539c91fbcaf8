-- ===== src/Adaptor/Memory.antt =====
-- Copies through src/adaptor/backend/_template.inc.
use cwapper.Base.{ℕ, List, [], ◌∷◌, ◌≡◌, refl, length, arith, some, ◌<◌, ◌≢◌}
use cwapper.Exec.{ok, ◌>>=◌}
use cwapper.Exec.Steps.{>>=-eq-ok}
use cwapper.Machine.{Machine, State, Op}
use cwapper.Machine.Memory.{IsMemory}
use cwapper.Adaptor.{memcpy_h2d, memcpy_d2h}

-- A copy out of a device address that the driver can read.
pub memcpy_d2h-copy_out :
    (m : Machine) (p n : ℕ) (bytes : List ℕ) (s : State m.Mem)
    → 0 < n
    → p ≢ 0
    → m.copy_out p n s.mem ≡ some bytes
    → memcpy_d2h m p n s ≡ (ok bytes, s)
unfolding memcpy_d2h
memcpy_d2h-copy_out m p n bytes s size arr h = ground arith

-- A copy out changes no state.
pub memcpy_d2h-unchanged : (m : Machine) (p n : ℕ) (s : State m.Mem) → (memcpy_d2h m p n s).1 ≡ s
unfolding memcpy_d2h
memcpy_d2h-unchanged m p n s = ground arith

-- A block that goes on after a copy out.
pub memcpy_d2h-bind :
    {A : Type 0} (m : Machine) (p n : ℕ) (f : List ℕ → Op m A) (s t : State m.Mem) (a : A)
    → (memcpy_d2h m p n >>= f) s ≡ (ok a, t)
    → (bytes : List ℕ) × (memcpy_d2h m p n s ≡ (ok bytes, s)) × (f bytes s ≡ (ok a, t))
memcpy_d2h-bind m p n f s t a h =
    let (bytes, r, rest) = >>=-eq-ok (memcpy_d2h m p n) f s t a h in
    let same_state = memcpy_d2h-unchanged m p n s in
    (bytes, ground (arith, same_state), rw same_state at rest)

-- A copy in changes the device memory alone.
pub memcpy_h2d-unchanged :
    (m : Machine) (p : ℕ) (bytes : List ℕ) (s : State m.Mem)
    → (memcpy_h2d m p bytes s).1 ≡ record s { mem = (memcpy_h2d m p bytes s).1.mem }
unfolding memcpy_h2d
memcpy_h2d-unchanged m p bytes s = ground arith

-- On a driver with the documented behaviour of memory, what memcpy_h2d has put at an address,
-- memcpy_d2h of as many bytes reads from there.
pub memcpy_d2h-memcpy_h2d :
    (m : Machine) (laws : IsMemory m) (p : ℕ) (bytes : List ℕ) (s t : State m.Mem)
    → memcpy_h2d m p bytes s ≡ (ok tt, t)
    → memcpy_d2h m p (length bytes) t ≡ (ok bytes, t)
unfolding memcpy_h2d memcpy_d2h
memcpy_d2h-memcpy_h2d m laws p [] s t h = refl
memcpy_d2h-memcpy_h2d m laws p (b ∷ bs) s t h =
    ground (arith, laws.copy_out-copy_in p (b ∷ bs) s.mem t.mem)
