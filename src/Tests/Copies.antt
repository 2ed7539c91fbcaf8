-- ===== src/Tests/Copies.antt =====
-- The last two calls of SpGEMM at concrete inputs.
use cwapper.Base.{true, ◌-ℤ◌, to_i32, inl, pos, arith, ◌+ℤ◌, ℕ, ◌≡◌, refl}
use cwapper.Types.{index_size, DataType-discrete, non_transpose, r_32f, spgemm_default, dtype_size}
use cwapper.Exec.{Result, ok}
use cwapper.Machine.{State, mat_at, spgemm_at}
use cwapper.Adaptor.{memcpy_d2h, memcpy_h2d, synchronize, init_once}
use cwapper.Jit.{run_launch, launch}
use cwapper.Scalars.{is_nonzero}
use cwapper.Spgemm.{create_descr, work_estimation, compute, copy}
use cwapper.Spgemm.Order.{AllOrdered}
use cwapper.Spgemm.Calls.{begins, calls, creates, estimates, Reached-AllOrdered}
use cwapper.Spgemm.Computed.{IsComputed, compute-IsComputed}
use cwapper.Spgemm.Steps.{
  estimate, serve_fill, fill_entries, sort_entries, serve, count_entries, derive_offsets,
}
use cwapper.Spgemm.Checks.{read_indices, validate, check_objects, check_scalars}
use cwapper.Spgemm.Host.{
  rows_work, offset_bytes, bytes_of32, values_of, sort_rows, sort_row, entries, insert_entry,
  row_offsets, any_flag,
}
use cwapper.Spgemm.Plan.{buffer1_bytes, pick_bucket, rows_bytes}
use cwapper.Spgemm.Hash.{hash_request}
use cwapper.Meta.{slice, ints_of, ints32, words32}
use cwapper.Tests.Bench.{bench, start, load, store}
use cwapper.Tests.Products.{products}

-- Numbers that are the pointers to 1.0 and to -0.0: the bench reads a pointer as its own pattern.
abbrev to_one : ℕ
to_one = 4607182418800017408

abbrev to_zero : ℕ
to_zero = 9223372036854775808

copy_passes :
    (copy bench 1 non_transpose non_transpose to_one 2 2 to_zero 10 r_32f spgemm_default 11
      products).0
    ≡ ok tt
unfolding copy validate check_objects DataType-discrete check_scalars is_nonzero memcpy_h2d
    offset_bytes bytes_of32 serve_fill pick_bucket fill_entries run_launch launch hash_request
    synchronize init_once sort_entries memcpy_d2h dtype_size sort_rows sort_row insert_entry entries
    ints_of ints32 values_of load store words32
copy_passes = refl

-- The scratch of this compute is where the bench has the columns 0 and 1: the counts of two rows.
abbrev counted : Result (Unit {0}) × State (ℕ → ℕ)
counted =
    compute bench 1 non_transpose non_transpose to_one 2 2 to_zero 10 r_32f spgemm_default 11 100
      2000 products

compute_passes : counted.0 ≡ ok tt
unfolding compute validate check_objects DataType-discrete check_scalars is_nonzero memcpy_h2d serve
    count_entries derive_offsets pick_bucket run_launch launch hash_request synchronize init_once
    memcpy_d2h dtype_size bytes_of32 row_offsets any_flag ints_of ints32 load store words32
    rows_bytes ◌+ℤ◌
compute_passes = refl

compute-IsComputed_example :
    IsComputed (pos 2) 2000 (mat_at (counted.1) 10).nnz (spgemm_at (counted.1) 11)
compute-IsComputed_example =
    compute-IsComputed bench 1 non_transpose non_transpose to_one 2 2 to_zero 10 r_32f
      spgemm_default 11 100 2000 products (ground arith) compute_passes

-- A descriptor is made at 12, and the work of the bench's product is estimated with a scratch at 8192.
abbrev made : State (ℕ → ℕ)
made = (create_descr bench 100 12 start).1

abbrev estimated : State (ℕ → ℕ)
estimated =
    (work_estimation bench 1 non_transpose non_transpose to_one 2 2 to_zero 2 r_32f spgemm_default
      12 100 8192 made).1

estimated_flag : (spgemm_at estimated 12).estimated ≡ true
unfolding work_estimation create_descr validate check_objects DataType-discrete check_scalars
    is_nonzero estimate read_indices rows_work memcpy_h2d memcpy_d2h synchronize init_once
    bytes_of32 rows_bytes buffer1_bytes ints_of ints32 load store words32 ◌+ℤ◌ ◌-ℤ◌ to_i32 slice
    dtype_size index_size
estimated_flag = refl

Reached-AllOrdered_example : AllOrdered estimated
Reached-AllOrdered_example =
    Reached-AllOrdered bench start estimated
      (λ p. record { computed = inl refl; estimated = inl refl })
      (calls made _ (calls start _ begins (creates 100 12)) (
        estimates 1 non_transpose non_transpose to_one 2 2 to_zero 2 r_32f spgemm_default 12 100
          8192))
