-- ===== src/Spmv/Shared.antt =====
-- One external buffer for two COO matrices (src/ops/spmv.cpp and src/core/csr_meta.cpp).
use cwapper.Base.{ℕ, ℤ, List, ◌≡◌, ◌≢◌, refl, arith, true, ◌==◌, Option, some}
use cwapper.Descr.{SpMatDescr}
use cwapper.Exec.{ok, modify}
use cwapper.Exec.Keeps.{Keeps, keeps_rules}
use cwapper.Machine.{Machine, State}
use cwapper.Adaptor.{memcpy_d2h, memcpy_h2d}
use cwapper.Meta.{build_coo_row_offsets, coo_offsets, set_max_row_nnz, set_coo_offsets_buffer}
use cwapper.Spmv.Routes.{ensure_coo_offsets}

-- What stands at the address `a`.
abbrev Holds : {Mem : Type 0} → ℕ → Option SpMatDescr → State Mem → Type 0
Holds a d s = s.mats a ≡ d

module _ (m : Machine) (a b : ℕ) (other : b ≢ a) (d : Option SpMatDescr) where
  memcpy_d2h-Holds : (p n : ℕ) → Keeps (Holds a d) (memcpy_d2h m p n)
  unfolding memcpy_d2h
  memcpy_d2h-Holds p n = record { at = λ s h. ground arith }

  memcpy_h2d-Holds : (p : ℕ) (bytes : List ℕ) → Keeps (Holds a d) (memcpy_h2d m p bytes)
  unfolding memcpy_h2d
  memcpy_h2d-Holds p bytes = record { at = λ s h. ground arith }

  set_max_row_nnz-Holds : (v : ℤ) → Keeps (Holds a d) (modify (set_max_row_nnz m b v))
  set_max_row_nnz-Holds v = record { at = λ s h. ground arith }

  set_coo_offsets_buffer-Holds : (p : ℕ) → Keeps (Holds a d) (modify (set_coo_offsets_buffer m b p))
  set_coo_offsets_buffer-Holds p = record { at = λ s h. ground arith }

  coo_offsets-Holds : (e : SpMatDescr) → Keeps (Holds a d) (coo_offsets m b e)
  unfolding coo_offsets
  coo_offsets-Holds e = search (keeps_rules, memcpy_d2h-Holds, set_max_row_nnz-Holds) depth 12

  build_coo_row_offsets-Holds : (p : ℕ) → Keeps (Holds a d) (build_coo_row_offsets m b p)
  unfolding build_coo_row_offsets
  build_coo_row_offsets-Holds p =
      search (keeps_rules, memcpy_h2d-Holds, coo_offsets-Holds, set_coo_offsets_buffer-Holds) depth
        9

marked_skip :
    (m : Machine) (a buffer : ℕ) (d : SpMatDescr) (t : State m.Mem)
    → t.mats a ≡ some d
    → d.coo_offsets_buffer ≡ buffer
    → ensure_coo_offsets m a buffer t ≡ (ok tt, t)
unfolding ensure_coo_offsets
marked_skip m a buffer d t here marked =
    let same : (d.coo_offsets_buffer == buffer) ≡ true = ground arith in rw (here, same) refl

-- The descriptor of a COO matrix remembers the buffer and not what is in it: after the offsets of
-- `a` were built into a buffer, a build of those of another matrix `b` into the same buffer leaves
-- the mark of `a` as it is, and the next SpMV on `a` builds nothing: it takes the buffer, and the
-- state, as the build for `b` left them.
pub ensure_coo_offsets-build_coo_row_offsets :
    (m : Machine) (a b buffer : ℕ) (d : SpMatDescr) (s : State m.Mem)
    → b ≢ a
    → s.mats a ≡ some d
    → d.coo_offsets_buffer ≡ buffer
    → ensure_coo_offsets m a buffer (build_coo_row_offsets m b buffer s).1
      ≡ (ok tt, (build_coo_row_offsets m b buffer s).1)
ensure_coo_offsets-build_coo_row_offsets m a b buffer d s other here marked =
    marked_skip m a buffer d (build_coo_row_offsets m b buffer s).1
      ((build_coo_row_offsets-Holds m a b other (some d) buffer).at s here) marked
