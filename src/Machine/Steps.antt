-- ===== src/Machine/Steps.antt =====
-- Refusals that leave a text on the handle.
use cwapper.Base.{ℕ, String, Bool, true, false, ◌≡◌, refl}
use cwapper.Types.{Status}
use cwapper.Exec.{Exec, ◌>>=◌}
use cwapper.Exec.Accepts.{Accepts}
use cwapper.Machine.{State, refuse_with}

pub Accepts-refuse_with :
    {Mem B : Type 0} {Q : Type 0} (handle : ℕ) (b : Bool) (text : String) (e : Status)
    (f : Unit {0} → Exec (State Mem) B) (s : State Mem)
    → (b ≡ false → Accepts Q (f tt) s)
    → Accepts Q (refuse_with handle b text e >>= f) s
Accepts-refuse_with handle true text e f s k = record { at = λ a h. cc }
Accepts-refuse_with handle false text e f s k = record { at = (k refl).at }
