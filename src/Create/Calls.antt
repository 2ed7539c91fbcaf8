-- ===== src/Create/Calls.antt =====
-- The calls on sparse matrix descriptors of src/api/descriptors.cpp in any order,
-- as steps between states.
use cwapper.Base.{
  ℕ, ℤ, pos, negsuc, ◌≡◌, subst, sym, arith, Bool, true, false, not, ◌&&◌, ◌||◌, Option, none, some,
  ◌==◌, lt_ℤ, if◌then◌else◌,
}
use cwapper.Types.{
  IndexType, IndexBase, DataType, Order, FillMode, DiagType, SpMatAttribute, is_csr,
}
use cwapper.Descr.{SpMatDescr, new_spmat}
use cwapper.Descr.Validity.{IsValid}
use cwapper.Exec.{modify}
use cwapper.Exec.Keeps.{Keeps, Keeps-refuse-bind, Keeps-gets-bind, Keeps-fail}
use cwapper.Machine.{State, mat_at, set_mat, update, or_default}
use cwapper.Create.{
  Call, create_csr, create_csc, create_coo, create_bsr, create_blocked_ell, create_sliced_ell,
  csr_set_pointers, destroy_spmat, spmat_set_attribute,
}
use cwapper.Create.Lifecycle.{
  AllValid, dropped-IsValid, set_mat-AllValid, create_csr-AllValid, create_csc-AllValid,
  create_coo-AllValid, create_bsr-AllValid, create_blocked_ell-AllValid, create_sliced_ell-AllValid,
}

-- Every live descriptor is valid, and the one at `p` is live.
record IsLive {Mem : Type 0} (p : ℕ) (s : State Mem) : Type 0 where
  all : AllValid s
  here : IsValid (mat_at s p)

repointed-IsValid :
    (d : SpMatDescr) (offsets indices values : ℕ)
    → IsValid d
    → not (is_csr d.format) ≡ false
    → (offsets == 0) ≡ false
    → (lt_ℤ (pos 0) d.nnz && (indices == 0 || values == 0)) ≡ false
    → IsValid (record d {
      offsets = offsets;
      indices = indices;
      values = values;
      max_row_nnz = negsuc 0;
      coo_offsets_buffer = 0;
      sddmm_row_ids_buffer = 0;
    })
repointed-IsValid d offsets indices values v f o i = ground arith

filled-IsValid :
    (d : SpMatDescr) (fill : FillMode)
    → IsValid d
    → IsValid (record d { fill_mode = fill; fill_mode_set = true })
filled-IsValid d fill v = ground arith

diagonal-IsValid :
    (d : SpMatDescr) (diag : DiagType) → IsValid d → IsValid (record d { diag_type = diag })
diagonal-IsValid d diag v = ground arith

written-IsValid :
    (b : Bool) (d : SpMatDescr) (o : Option SpMatDescr)
    → b ≡ true
    → IsValid d
    → IsValid (or_default new_spmat (if b then some d else o))
written-IsValid true d o h v = v
written-IsValid false d o h v = cc

==-refl : (p : ℕ) → (p == p) ≡ true
==-refl p = ground arith

module _ {Mem : Type 0} where
  set_mat-IsLive :
      (p : ℕ) (d : SpMatDescr) → IsValid d → Keeps (IsLive {Mem = Mem} p) (modify (set_mat p d))
  set_mat-IsLive p d v = record {
    at = λ s h. record {
      all = (set_mat-AllValid p d v).at s h.all;
      here = written-IsValid (p == p) d (s.mats p) (==-refl p) v;
    };
  }

  here_IsValid : (p : ℕ) (s : State Mem) → IsLive p s → IsValid (mat_at s p)
  here_IsValid p s h = h.here

  csr_set_pointers-IsLive :
      (descr offsets indices values : ℕ)
      → Keeps (IsLive {Mem = Mem} descr) (csr_set_pointers descr offsets indices values)
  unfolding csr_set_pointers
  csr_set_pointers-IsLive descr offsets indices values =
      search (Keeps-refuse-bind, Keeps-gets-bind, set_mat-IsLive, repointed-IsValid, here_IsValid)
        depth 12

  spmat_set_attribute-IsLive :
      (descr : ℕ) (attribute : SpMatAttribute) (pointer : ℕ) (fill : FillMode) (diag : DiagType)
      (size : ℕ)
      → Keeps
          (IsLive {Mem = Mem} descr)
          (spmat_set_attribute descr attribute pointer fill diag size)
  unfolding spmat_set_attribute
  spmat_set_attribute-IsLive descr SpMatAttribute.attribute_fill_mode pointer fill diag size =
      search (Keeps-refuse-bind, Keeps-gets-bind, set_mat-IsLive, filled-IsValid, here_IsValid)
        depth 12
  spmat_set_attribute-IsLive descr SpMatAttribute.attribute_diag_type pointer fill diag size =
      search (Keeps-refuse-bind, Keeps-gets-bind, set_mat-IsLive, diagonal-IsValid, here_IsValid)
        depth 12
  spmat_set_attribute-IsLive descr (SpMatAttribute.other n) pointer fill diag size =
      search (Keeps-refuse-bind, Keeps-gets-bind, Keeps-fail) depth 12

  erased-AllValid :
      (p : ℕ)
      → Keeps (AllValid {Mem = Mem}) (modify (λ s. record s { mats = update s.mats p none }))
  erased-AllValid p = record {
    at = λ s h. record { at = λ q e k. dropped-IsValid (p == q) (s.mats q) e (h.at q e) k };
  }

  destroy_spmat-AllValid : (descr : ℕ) → Keeps (AllValid {Mem = Mem}) (destroy_spmat descr)
  unfolding destroy_spmat
  destroy_spmat-AllValid descr = search (Keeps-refuse-bind, erased-AllValid) depth 9

-- A call that a program may make in the state `s`.
pub data MatCall {Mem : Type 0} (s : State Mem) : Call Mem → Type 0 where
  makes_csr :
      (descr : ℕ) (rows cols nnz : ℤ) (offsets indices values : ℕ) (t u : IndexType)
      (base : IndexBase) (vtype : DataType) (p : ℕ)
      → MatCall s (create_csr descr rows cols nnz offsets indices values t u base vtype p)
  makes_csc :
      (descr : ℕ) (rows cols nnz : ℤ) (offsets indices values : ℕ) (t u : IndexType)
      (base : IndexBase) (vtype : DataType) (p : ℕ)
      → MatCall s (create_csc descr rows cols nnz offsets indices values t u base vtype p)
  makes_coo :
      (descr : ℕ) (rows cols nnz : ℤ) (row_ind col_ind values : ℕ) (t : IndexType)
      (base : IndexBase) (vtype : DataType) (p : ℕ)
      → MatCall s (create_coo descr rows cols nnz row_ind col_ind values t base vtype p)
  makes_bsr :
      (descr : ℕ) (rows cols nnz row_dim col_dim : ℤ) (offsets indices values : ℕ) (t u : IndexType)
      (base : IndexBase) (vtype : DataType) (order : Order) (p : ℕ)
      → MatCall s (
          create_bsr descr rows cols nnz row_dim col_dim offsets indices values t u base vtype order
            p)
  makes_blocked_ell :
      (descr : ℕ) (rows cols block_size ell_cols : ℤ) (col_ind value : ℕ) (t : IndexType)
      (base : IndexBase) (vtype : DataType) (p : ℕ)
      → MatCall s
          (create_blocked_ell descr rows cols block_size ell_cols col_ind value t base vtype p)
  makes_sliced_ell :
      (descr : ℕ) (rows cols slice_size : ℤ) (offsets col_ind values : ℕ) (t : IndexType)
      (base : IndexBase) (vtype : DataType) (p : ℕ)
      → MatCall s
          (create_sliced_ell descr rows cols slice_size offsets col_ind values t base vtype p)
  repoints :
      (descr offsets indices values : ℕ) (d : SpMatDescr)
      → s.mats descr ≡ some d
      → MatCall s (csr_set_pointers descr offsets indices values)
  sets_attribute :
      (descr : ℕ) (attribute : SpMatAttribute) (pointer : ℕ) (fill : FillMode) (diag : DiagType)
      (size : ℕ) (d : SpMatDescr)
      → s.mats descr ≡ some d
      → MatCall s (spmat_set_attribute descr attribute pointer fill diag size)
  destroys : (descr : ℕ) → MatCall s (destroy_spmat descr)

-- The states that calls lead to.
pub data Reachable {Mem : Type 0} (s : State Mem) : State Mem → Type 0 where
  start : Reachable s s
  call : (t : State Mem) (c : Call Mem) → Reachable s t → MatCall t c → Reachable s (c t).1

module _ {Mem : Type 0} where
  live : (s : State Mem) (p : ℕ) (d : SpMatDescr) → s.mats p ≡ some d → AllValid s → IsLive p s
  live s p d e h = record {
    all = h;
    here = subst (λ o. IsValid (or_default new_spmat o)) (sym e) (h.at p d e);
  }

  MatCall-AllValid : (s : State Mem) (c : Call Mem) → MatCall s c → AllValid s → AllValid (c s).1
  MatCall-AllValid s _ (makes_csr descr rows cols nnz offsets indices values t u base vtype p) h =
      (create_csr-AllValid descr rows cols nnz offsets indices values t u base vtype p).at s h
  MatCall-AllValid s _ (makes_csc descr rows cols nnz offsets indices values t u base vtype p) h =
      (create_csc-AllValid descr rows cols nnz offsets indices values t u base vtype p).at s h
  MatCall-AllValid s _ (makes_coo descr rows cols nnz row_ind col_ind values t base vtype p) h =
      (create_coo-AllValid descr rows cols nnz row_ind col_ind values t base vtype p).at s h
  MatCall-AllValid s _
        (makes_bsr descr rows cols nnz row_dim col_dim offsets indices values t u base vtype order
          p)
        h =
      (create_bsr-AllValid descr rows cols nnz row_dim col_dim offsets indices values t u base vtype
          order p).at
        s h
  MatCall-AllValid s _
        (makes_blocked_ell descr rows cols block_size ell_cols col_ind value t base vtype p) h =
      (create_blocked_ell-AllValid descr rows cols block_size ell_cols col_ind value t base vtype
          p).at
        s h
  MatCall-AllValid s _
        (makes_sliced_ell descr rows cols slice_size offsets col_ind values t base vtype p) h =
      (create_sliced_ell-AllValid descr rows cols slice_size offsets col_ind values t base vtype
          p).at
        s h
  MatCall-AllValid s _ (repoints descr offsets indices values d e) h =
      ((csr_set_pointers-IsLive descr offsets indices values).at s (live s descr d e h)).all
  MatCall-AllValid s _ (sets_attribute descr attribute pointer fill diag size d e) h =
      ((spmat_set_attribute-IsLive descr attribute pointer fill diag size).at s
        (live s descr d e h)).all
  MatCall-AllValid s _ (destroys descr) h = (destroy_spmat-AllValid descr).at s h

  -- From a state in which every live matrix descriptor is valid, calls that create, repoint, mark
  -- and destroy matrices, in any order and with any arguments, successful or not, lead only to
  -- such states. (A call that changes a descriptor is made on a live one.)
  pub Reachable-AllValid : (s t : State Mem) → AllValid s → Reachable s t → AllValid t
  Reachable-AllValid s _ h start = h
  Reachable-AllValid s _ h (call t c r k) = MatCall-AllValid t c k (Reachable-AllValid s t h r)
