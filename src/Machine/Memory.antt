-- ===== src/Machine/Memory.antt =====
-- The documented behaviour of the driver's copies, as hypotheses.
use cwapper.Base.{ℕ, List, ◌≡◌, some, length}
use cwapper.Machine.{Machine}

-- A copy out after a copy in gives the bytes back, and a copy out gives as many bytes as asked.
pub record IsMemory (m : Machine) : Type 0 where
  pub copy_out-copy_in :
      (p : ℕ) (bytes : List ℕ) (before after : m.Mem)
      → m.copy_in p bytes before ≡ some after
      → m.copy_out p (length bytes) after ≡ some bytes
  pub length-copy_out :
      (p n : ℕ) (memory : m.Mem) (bytes : List ℕ)
      → m.copy_out p n memory ≡ some bytes
      → length bytes ≡ n
