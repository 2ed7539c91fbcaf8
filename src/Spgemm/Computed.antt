-- ===== src/Spgemm/Computed.antt =====
-- What flagsparseSpGEMM_compute of src/ops/spgemm.cpp leaves on its descriptor and on C.
use cwapper.Base.{
  ℕ, ◌≡◌, ◌≢◌, ◌⊎◌, inl, inr, refl, sym, ap, arith, ℤ, pos, negsuc, ◌∙◌, true, List, ◌==◌, eq_ℤ,
  if◌then◌else◌,
}
use cwapper.Types.{Operation, DataType, SpGemmAlg}
use cwapper.Descr.{SpMatDescr, SpGemmDescr}
use cwapper.Exec.{ok, pure, modify, ◌>>=◌, ◌>>◌}
use cwapper.Exec.Leaves.{Leaves, Leaves-bind, Leaves-gets, Leaves-if, Leaves-past, Leaves-refuse}
use cwapper.Machine.{Machine, State, Op, mat_at, spgemm_at}
use cwapper.Adaptor.{init_once, discover}
use cwapper.Frame.{IsFrame}
use cwapper.Spgemm.{compute}
use cwapper.Spgemm.Agreement.{validate-Keeps}
use cwapper.Spgemm.Checks.{validate}
use cwapper.Spgemm.Totals.{IsCounted, derive_offsets-Leaves}
use cwapper.Spgemm.Steps.{derive_offsets, set_nnz, change_descr}

-- What a compute with a buffer leaves for a matrix A of so many rows.
abbrev pub IsComputed : ℤ → ℕ → ℤ → SpGemmDescr → Type 0
IsComputed rows scratch nnz d =
    ((rows ≡ pos 0) × (nnz ≡ pos 0) × (d.computed ≡ true)) ⊎ IsCounted scratch nnz d

eq_ℤ_zero : (v : ℤ) → eq_ℤ v (pos 0) ≡ true → v ≡ pos 0
eq_ℤ_zero (pos n) h = ap pos (ground arith)
eq_ℤ_zero (negsuc n) h = ground arith

abbrev HasRows : {Mem : Type 0} → ℕ → ℤ → State Mem → Type 0
HasRows p v s = (mat_at s p).rows ≡ v

HasRows-IsFrame : (m : Machine) (p : ℕ) (v : ℤ) → IsFrame m p (HasRows p v)
unfolding init_once discover
HasRows-IsFrame m p v = record {
  memory = λ u s h. h;
  longest = λ u s h. ground arith;
  offsets = λ b s h. ground arith;
  failure = λ handle text s h. h;
  discovery = λ s h. ground arith;
  launched = λ r agreeing s h. h;
}

module _ (m : Machine) (handle : ℕ) (opA opB : Operation) (alpha mat_a mat_b beta mat_c : ℕ)
    (t : DataType) (alg : SpGemmAlg) (descr size buffer : ℕ) where
  abbrev Left : ℤ → State m.Mem → Type 0
  Left rows u = IsComputed rows buffer (mat_at u mat_c).nnz (spgemm_at u descr)

  past_checks :
      (f : Unit {0} → Op m (Unit {0})) (s : State m.Mem)
      → ((u : State m.Mem)
          → (mat_at u mat_a).rows ≡ (mat_at s mat_a).rows
          → Leaves (Left (mat_at s mat_a).rows) (f tt) u)
      → Leaves
          (Left (mat_at s mat_a).rows)
          (validate m handle opA opB alpha mat_a mat_b beta mat_c t alg descr >>= f)
          s
  past_checks f s k =
      Leaves-past (HasRows mat_a (mat_at s mat_a).rows) _ f s
        (validate-Keeps m mat_a _ (HasRows-IsFrame m mat_a (mat_at s mat_a).rows) handle opA opB
          alpha mat_a mat_b beta mat_c t alg descr)
        refl (λ _. k)

  sized :
      (rows : ℤ) (n : Op m (Unit {0})) (s : State m.Mem)
      → buffer ≢ 0
      → Leaves (Left rows) n s
      → Leaves (Left rows) (if buffer == 0 then pure tt else n) s
  sized rows n s h k = Leaves-if (buffer == 0) (pure tt) n s (λ e. ground arith) (λ e. k)

  -- The writes that end compute for a matrix without rows.
  abbrev record_empty : Op m (Unit {0})
  record_empty =
      modify (set_nnz m mat_c (pos 0))
      >> modify (change_descr m descr (λ e. record e { computed = true }))

  emptied :
      (v rows : ℤ) (s : State m.Mem)
      → v ≡ rows
      → eq_ℤ v (pos 0) ≡ true
      → Leaves (Left rows) record_empty s
  emptied v rows s h e = record {
    at = λ r q. inl (sym h ∙ eq_ℤ_zero v e, ground arith, ground arith);
  }

  by_rows :
      (v rows : ℤ) (n : Op m (Unit {0})) (s : State m.Mem)
      → v ≡ rows
      → Leaves (Left rows) n s
      → Leaves (Left rows) (if eq_ℤ v (pos 0) then record_empty else n) s
  by_rows v rows n s h k = Leaves-if (eq_ℤ v (pos 0)) record_empty n s (emptied v rows s h) (λ _. k)

  compute-Leaves :
      (s : State m.Mem)
      → buffer ≢ 0
      → Leaves
          (Left (mat_at s mat_a).rows)
          (compute m handle opA opB alpha mat_a mat_b beta mat_c t alg descr size buffer)
          s
  unfolding compute
  compute-Leaves s given =
      let counted : (a : SpMatDescr) (ns : List ℤ) (v : State m.Mem)
          → Leaves (Left (mat_at s mat_a).rows) (derive_offsets m mat_c descr a ns buffer) v =
        λ a ns v. record {
          at = λ r q. inr ((derive_offsets-Leaves m mat_c descr a ns buffer v).at r q);
        } in
      search (Leaves-refuse, past_checks, Leaves-gets, sized, by_rows, Leaves-bind, counted, given)
        depth 24

  -- For a buffer that is not null, a compute that succeeds leaves the descriptor computed and the size
  -- of C set. If A has no rows then C has no entries. Otherwise the buffer is on the descriptor, and
  -- the row offsets there end with the number of entries of C, which an int32 holds.
  pub compute-IsComputed :
      (s : State m.Mem)
      → buffer ≢ 0
      → (compute m handle opA opB alpha mat_a mat_b beta mat_c t alg descr size buffer s).0 ≡ ok tt
      → let u =
          (compute m handle opA opB alpha mat_a mat_b beta mat_c t alg descr size buffer s).1 in
        IsComputed (mat_at s mat_a).rows buffer (mat_at u mat_c).nnz (spgemm_at u descr)
  compute-IsComputed s given = (compute-Leaves s given).at tt
