-- ===== src/Spgemm/Steps.antt =====
-- The steps of the three calls of src/ops/spgemm.cpp.
use cwapper.Base.{
  ℕ, ◌+◌, ◌*◌, ℤ, pos, ◌+ℤ◌, true, false, List, ◌∷◌, Option, none, some, pos_part, replicate,
  if◌then◌else◌,
}
use cwapper.Types.{
  DataType, not_supported, i32, index_32i, is_r_64f, dtype_size, triton_index_dtype,
}
use cwapper.Descr.{SpMatDescr, SpGemmDescr}
use cwapper.Exec.{pure, fail, lift, gets, modify, ◌>>=◌, ◌>>◌}
use cwapper.Machine.{
  Machine, State, Op, mat_at, spgemm_at, context_at, set_mat, set_spgemm, set_error, refuse_with,
}
use cwapper.Adaptor.{memcpy_d2h, memcpy_h2d, synchronize}
use cwapper.Jit.{run_launch}
use cwapper.Meta.{ints_of}
use cwapper.Spgemm.Checks.{read_indices}
use cwapper.Spgemm.Plan.{Bucket, rows_bytes}
use cwapper.Spgemm.Host.{
  Estimate, rows_work, row_offsets, any_flag, bytes_of32, entries, sort_rows, columns_of, values_of,
}
use cwapper.Spgemm.Hash.{HashPointers, hash_request}

module _ (m : Machine) where
  abbrev pub set_nnz : ℕ → ℤ → State m.Mem → State m.Mem
  set_nnz p v s = set_mat p (record (mat_at s p) { nnz = v }) s

  -- d->field = ..., through a function on the descriptor.
  abbrev pub change_descr : ℕ → (SpGemmDescr → SpGemmDescr) → State m.Mem → State m.Mem
  change_descr p f s = set_spgemm p (f (spgemm_at s p)) s

  -- The arrays of A and B on the host, and the loops over them.
  unfoldable pub estimate : SpMatDescr → SpMatDescr → Op m Estimate
  estimate a b = do
    a_off ← read_indices m a.offsets a.offsets_type (a.rows +ℤ pos 1)
    a_col ← read_indices m a.indices a.indices_type a.nnz
    b_off ← read_indices m b.offsets b.offsets_type (b.rows +ℤ pos 1)
    lift (rows_work b.rows b_off a_col (replicate (pos_part a.nnz) (pos 0)) (pos 0) a_off)

  abbrev pub estimated_descr : ℕ → ℕ → ℕ → SpMatDescr → Estimate → SpGemmDescr → SpGemmDescr
  estimated_descr buffer mat_a mat_b a e d = record d {
    buffer1 = buffer;
    matrix_a = mat_a;
    matrix_b = mat_b;
    rows = a.rows;
    nnz_a = a.nnz;
    max_row_work = e.max_work;
    estimated = true;
    computed = false;
  }

  -- The bucket of compute; a row that no table can hold is reported.
  unfoldable pub serve : ℕ → Option Bucket → Op m Bucket
  serve handle none = do
    modify (
        set_error handle
          "a row of A*B has more scalar products than the shared-memory hash table can hold; the operator package falls back to an expand-sort-compress path there, which has no kernel to call.")
    fail not_supported
  serve handle (some bucket) = pure bucket

  -- The count kernel, and the entries of each row of C that it found.
  unfoldable pub count_entries :
      ℕ → SpMatDescr → SpMatDescr → SpGemmDescr → Bucket → DataType → ℕ → Op m (List ℤ)
  count_entries handle a b d bucket compute_type buffer = do
    h ← gets (λ s. context_at s handle)
    let ovf = buffer + rows_bytes a.rows
    let p : HashPointers = record {
      rw = d.buffer1;
      a_pref = d.buffer1 + rows_bytes a.rows;
      row_nnz = buffer;
      ovf = ovf;
      c_indptr = 0;
      c_ind = 0;
      c_data = 0;
    }
    run_launch m handle (
        hash_request m h.stream "_spgemm_hash_count_kernel" a b p i32 bucket false false
          compute_type)
    synchronize m
    host_nnz ← memcpy_d2h m buffer (pos_part a.rows * 4)
    host_ovf ← memcpy_d2h m ovf (pos_part a.rows * 4)
    refuse_with handle (any_flag (ints_of index_32i host_ovf))
        "a row overflowed the shared-memory hash table; the ESC fallback is not reachable from the C API."
        not_supported
    pure (ints_of index_32i host_nnz)

  abbrev pub computed_descr : ℕ → ℤ → SpGemmDescr → SpGemmDescr
  computed_descr buffer longest d = record d {
    max_row_nnz = longest;
    buffer2 = buffer;
    computed = true;
  }

  -- The rest of compute: the offsets of C on the host and behind the two arrays of the scratch.
  unfoldable pub derive_offsets : ℕ → ℕ → SpMatDescr → List ℤ → ℕ → Op m (Unit {0})
  derive_offsets mat_c descr a host_nnz buffer = do
    let sums = row_offsets (pos 0) (pos 0) host_nnz
    modify (change_descr descr (λ d. record d { host_indptr = pos 0 ∷ sums.0 }))
    totals ← lift (sums.1)
    memcpy_h2d m (buffer + 2 * rows_bytes a.rows) (bytes_of32 (pos 0 ∷ sums.0))
    modify (set_nnz mat_c (totals.0))
    modify (change_descr descr (computed_descr buffer (totals.1)))

  -- The fill kernel: the entries of C, in the order of the hash slots.
  unfoldable pub fill_entries :
      ℕ → SpMatDescr → SpMatDescr → SpMatDescr → SpGemmDescr → Bucket → DataType → Op m (Unit {0})
  fill_entries handle a b c d bucket compute_type = do
    h ← gets (λ s. context_at s handle)
    let kernel =
        if is_r_64f compute_type then "_spgemm_hash_fill_kernel_f64" else "_spgemm_hash_fill_kernel"
    let p : HashPointers = record {
      rw = d.buffer1;
      a_pref = d.buffer1 + rows_bytes a.rows;
      row_nnz = d.buffer2;
      ovf = d.buffer2 + rows_bytes a.rows;
      c_indptr = c.offsets;
      c_ind = c.indices;
      c_data = c.values;
    }
    run_launch m handle (
        hash_request m h.stream kernel a b p (triton_index_dtype c.offsets_type) bucket false true
          compute_type)
    synchronize m

  -- The rows of C, read back, sorted by column, and written again.
  unfoldable pub sort_entries : SpMatDescr → SpGemmDescr → DataType → Op m (Unit {0})
  sort_entries c d compute_type = do
    let vsize = dtype_size compute_type
    cols ← memcpy_d2h m c.indices (pos_part c.nnz * 4)
    vals ← memcpy_d2h m c.values (pos_part c.nnz * vsize)
    let sorted = sort_rows (entries vsize (ints_of index_32i cols) vals) d.host_indptr
    memcpy_h2d m c.indices (bytes_of32 (columns_of sorted))
    memcpy_h2d m c.values (values_of sorted)

  -- The bucket of copy.
  unfoldable pub serve_fill : Option Bucket → Op m Bucket
  serve_fill none = fail not_supported
  serve_fill (some bucket) = pure bucket
