-- ===== src/Spgemm/Agreement.antt =====
-- The launches of src/ops/spgemm.cpp over a whole call.
use cwapper.Base.{ℕ, ℤ, List, Bool, true, false, refl, String, Option, none, some}
use cwapper.Types.{Operation, DataType, SpGemmAlg, IndexType, Scalar}
use cwapper.Descr.{SpMatDescr, SpGemmDescr}
use cwapper.Launch.{Agrees, agrees}
use cwapper.Exec.{modify}
use cwapper.Exec.Keeps.{Keeps, keeps_rules}
use cwapper.Machine.{Machine, State, set_cell}
use cwapper.Frame.{IsFrame, frame_steps, run_launch-Keeps, synchronize-Keeps}
use cwapper.Spgemm.{work_estimation, compute, copy}
use cwapper.Spgemm.Steps.{
  set_nnz, change_descr, estimate, serve, count_entries, derive_offsets, fill_entries, sort_entries,
  serve_fill,
}
use cwapper.Spgemm.Checks.{read_indices, check_scalars, check_objects, validate}
use cwapper.Spgemm.Hash.{HashPointers, hash_request}
use cwapper.Spgemm.Plan.{Bucket}

module _ (m : Machine) where
  hash_request-Agrees :
      (stream : ℕ) (kernel : String) (a b : SpMatDescr) (p : HashPointers) (ot : Scalar)
      (bucket : Bucket) (report fill : Bool) (t : DataType)
      → Agrees (hash_request m stream kernel a b p ot bucket report fill t)
  unfolding hash_request agrees
  hash_request-Agrees stream kernel a b p ot bucket report true t = refl
  hash_request-Agrees stream kernel a b p ot bucket report false t = refl

module _ (m : Machine) (p : ℕ) (P : State m.Mem → Type 0) (frame : IsFrame m p P) where
  read_indices-Keeps :
      (device : ℕ) (type : IndexType) (count : ℤ) → Keeps P (read_indices m device type count)
  unfolding read_indices
  read_indices-Keeps device type count = search (frame_steps, frame) depth 9

  check_objects-Keeps : (a b c : SpMatDescr) (t : DataType) → Keeps P (check_objects m a b c t)
  unfolding check_objects
  check_objects-Keeps a b c t = search keeps_rules depth 12

  check_scalars-Keeps :
      (handle alpha beta : ℕ) (t : DataType) → Keeps P (check_scalars m handle alpha beta t)
  unfolding check_scalars
  check_scalars-Keeps handle alpha beta t = search (frame_steps, frame) depth 12

  pub validate-Keeps :
      (handle : ℕ) (opA opB : Operation) (alpha mat_a mat_b beta mat_c : ℕ) (t : DataType)
      (alg : SpGemmAlg) (descr : ℕ)
      → Keeps P (validate m handle opA opB alpha mat_a mat_b beta mat_c t alg descr)
  unfolding validate
  validate-Keeps handle opA opB alpha mat_a mat_b beta mat_c t alg descr =
      search (keeps_rules, check_objects-Keeps, check_scalars-Keeps) depth 16

  pub estimate-Keeps : (a b : SpMatDescr) → Keeps P (estimate m a b)
  unfolding estimate
  estimate-Keeps a b = search (keeps_rules, read_indices-Keeps) depth 12

  pub serve-Keeps : (handle : ℕ) (o : Option Bucket) → Keeps P (serve m handle o)
  unfolding serve
  serve-Keeps handle none = record { at = frame.failure handle _ }
  serve-Keeps handle (some bucket) = record { at = λ s h. h }

  serve_fill-Keeps : (o : Option Bucket) → Keeps P (serve_fill m o)
  unfolding serve_fill
  serve_fill-Keeps none = record { at = λ s h. h }
  serve_fill-Keeps (some bucket) = record { at = λ s h. h }

  pub count_entries-Keeps :
      (handle : ℕ) (a b : SpMatDescr) (d : SpGemmDescr) (bucket : Bucket) (t : DataType)
      (buffer : ℕ)
      → Keeps P (count_entries m handle a b d bucket t buffer)
  unfolding count_entries
  count_entries-Keeps handle a b d bucket t buffer =
      search (frame_steps, run_launch-Keeps, hash_request-Agrees, synchronize-Keeps, frame) depth 16

  fill_entries-Keeps :
      (handle : ℕ) (a b c : SpMatDescr) (d : SpGemmDescr) (bucket : Bucket) (t : DataType)
      → Keeps P (fill_entries m handle a b c d bucket t)
  unfolding fill_entries
  fill_entries-Keeps handle a b c d bucket t =
      search (keeps_rules, run_launch-Keeps, hash_request-Agrees, synchronize-Keeps, frame) depth 12

  sort_entries-Keeps :
      (c : SpMatDescr) (d : SpGemmDescr) (t : DataType) → Keeps P (sort_entries m c d t)
  unfolding sort_entries
  sort_entries-Keeps c d t = search (frame_steps, frame) depth 12

  module _ (handle : ℕ) (opA opB : Operation) (alpha mat_a mat_b beta mat_c : ℕ) (t : DataType)
      (alg : SpGemmAlg) (descr : ℕ) where
    pub copy-Keeps : Keeps P (copy m handle opA opB alpha mat_a mat_b beta mat_c t alg descr)
    unfolding copy
    copy-Keeps =
        search
          (
            frame_steps, validate-Keeps, serve_fill-Keeps, fill_entries-Keeps, sort_entries-Keeps,
            frame,
          )
          depth 20

    -- The two calls that write the descriptor and C, for a property that survives those writes.
    module _ (sized : (q v : ℕ) → Keeps P (modify (set_cell q v)))
        (changed : (q : ℕ) (f : SpGemmDescr → SpGemmDescr)
          → Keeps P (modify (change_descr m q f))) where
      pub work_estimation-Keeps :
          (size buffer : ℕ)
          → Keeps P (
              work_estimation m handle opA opB alpha mat_a mat_b beta mat_c t alg descr size buffer)
      unfolding work_estimation
      work_estimation-Keeps size buffer =
          search (frame_steps, validate-Keeps, estimate-Keeps, sized, changed, frame) depth 20

      module _ (counted : (q : ℕ) (v : ℤ) → Keeps P (modify (set_nnz m q v))) where
        derive_offsets-Keeps :
            (a : SpMatDescr) (host_nnz : List ℤ) (buffer : ℕ)
            → Keeps P (derive_offsets m mat_c descr a host_nnz buffer)
        unfolding derive_offsets
        derive_offsets-Keeps a host_nnz buffer =
            search (frame_steps, changed, counted, frame) depth 12

        pub compute-Keeps :
            (size buffer : ℕ)
            → Keeps P
                (compute m handle opA opB alpha mat_a mat_b beta mat_c t alg descr size buffer)
        unfolding compute
        compute-Keeps size buffer =
            search
              (
                frame_steps, validate-Keeps, serve-Keeps, count_entries-Keeps, derive_offsets-Keeps,
                sized, changed, counted, frame,
              )
              depth 24
