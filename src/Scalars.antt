-- ===== src/Scalars.antt =====
-- read_scalar of src/ops/spmv.cpp and src/ops/spsv.cpp: alpha and beta arrive as `void*`.
-- A double is its bit pattern; the imaginary part of a real scalar is 0.0, whose pattern is 0.
use cwapper.Base.{ℕ, ◌^◌, Bool, not, ◌||◌, ◌==◌}
use cwapper.Types.{DataType, r_32f, r_64f, c_32f, c_64f, invalid_value, not_supported, is_host}
use cwapper.Exec.{pure, fail, gets, refuse, ◌>>=◌, ◌>>◌}
use cwapper.Machine.{Machine, Op, context_at}

-- x != 0.0: neither zero of the format.
unfoldable pub is_nonzero : ℕ → Bool
is_nonzero x = not (x == 0 || x == 2 ^ 63)

module _ (m : Machine) where
  unfoldable pub scalar_at : DataType → ℕ → Op m (ℕ × ℕ)
  scalar_at r_32f p = pure (m.widen (m.float_at p 0), 0)
  scalar_at r_64f p = pure (m.double_at p 0, 0)
  scalar_at c_32f p = pure (m.widen (m.float_at p 0), m.widen (m.float_at p 1))
  scalar_at c_64f p = pure (m.double_at p 0, m.double_at p 1)
  scalar_at _ p = fail not_supported

  unfoldable pub read_scalar : ℕ → ℕ → DataType → Op m (ℕ × ℕ)
  unfolding scalar_at
  read_scalar handle p ctype = do
    refuse (p == 0) invalid_value
    c ← gets (λ s. context_at s handle)
    refuse (not (is_host c.pointer_mode)) not_supported
    scalar_at ctype p
