-- ===== src/Create/Lifecycle.antt =====
-- The life of a sparse matrix descriptor, src/api/descriptors.cpp: what its calls keep.
use cwapper.Base.{
  ℕ, ℤ, pos, ◌≤ℤ◌, ◌≡◌, ◌<◌, subst, arith, Bool, true, false, not, ◌||◌, Option, none, some, ◌==◌,
  lt_ℤ, if◌then◌else◌,
}
use cwapper.Types.{IndexType, IndexBase, DataType, Order, dtype_size, index_size, is_known_base}
use cwapper.Descr.{SpMatDescr}
use cwapper.Descr.Validity.{IsValid}
use cwapper.Exec.{modify, ◌>>=◌}
use cwapper.Exec.Accepts.{Accepts, Accepts-refuse, Accepts-last}
use cwapper.Exec.Keeps.{Keeps, Keeps-bind-Accepts, Keeps-refuse-bind, Keeps-bind, keeps_rules}
use cwapper.Machine.{State, set_mat, set_cell}
use cwapper.Create.Made.{
  csr-IsValid, csc-IsValid, coo-IsValid, bsr-IsValid, blocked_ell-IsValid, sliced_ell-IsValid,
}
use cwapper.Create.{
  Call, check_common, check_index, publish, create_csr, create_csc, create_coo, create_bsr,
  create_blocked_ell, create_sliced_ell,
}

-- Every live matrix descriptor is valid.
pub record AllValid {Mem : Type 0} (s : State Mem) : Type 0 where
  pub at : (q : ℕ) (d : SpMatDescr) → s.mats q ≡ some d → IsValid d

pub some_inj : (d e : SpMatDescr) → some d ≡ some e → d ≡ e
some_inj d e h = cc

pub chosen-IsValid :
    (b : Bool) (o : Option SpMatDescr) (d e : SpMatDescr)
    → (o ≡ some e → IsValid e)
    → IsValid d
    → (if b then some d else o) ≡ some e
    → IsValid e
chosen-IsValid true o d e h v k = subst IsValid (some_inj d e k) v
chosen-IsValid false o d e h v k = h k

pub dropped-IsValid :
    (b : Bool) (o : Option SpMatDescr) (e : SpMatDescr)
    → (o ≡ some e → IsValid e)
    → (if b then none else o) ≡ some e
    → IsValid e
dropped-IsValid true o e h k = cc
dropped-IsValid false o e h k = h k

sizes_known :
    (rows cols nnz : ℤ)
    → (lt_ℤ rows (pos 0) || lt_ℤ cols (pos 0) || lt_ℤ nnz (pos 0)) ≡ false
    → (pos 0 ≤ℤ rows) × (pos 0 ≤ℤ cols) × (pos 0 ≤ℤ nnz)
sizes_known rows cols nnz h = ground arith

known_positive : (n : ℕ) → (n == 0) ≡ false → 0 < n
known_positive n h = ground arith

module _ {Mem : Type 0} where
  pub set_mat-AllValid :
      (p : ℕ) (d : SpMatDescr) → IsValid d → Keeps (AllValid {Mem = Mem}) (modify (set_mat p d))
  set_mat-AllValid p d v = record {
    at = λ s h. record { at = λ q e k. chosen-IsValid (p == q) (s.mats q) d e (h.at q e) v k };
  }

  set_cell-AllValid : (p v : ℕ) → Keeps (AllValid {Mem = Mem}) (modify (set_cell p v))
  set_cell-AllValid p v = record { at = λ s h. record { at = h.at } }

  publish-AllValid :
      (descr p : ℕ) (d : SpMatDescr) → IsValid d → Keeps AllValid (publish {Mem = Mem} descr p d)
  publish-AllValid descr p d v =
      search (keeps_rules, set_mat-AllValid, set_cell-AllValid, v) depth 9

  common-Keeps :
      (P : State Mem → Type 0) (rows cols nnz : ℤ) (base : IndexBase) (t : DataType)
      → Keeps P (check_common rows cols nnz base t)
  unfolding check_common
  common-Keeps P rows cols nnz base t = search keeps_rules depth 9

  Accepts-check_common :
      (rows cols nnz : ℤ) (base : IndexBase) (t : DataType) (s : State Mem)
      → Accepts
          ((pos 0 ≤ℤ rows)
            × (pos 0 ≤ℤ cols)
            × (pos 0 ≤ℤ nnz)
            × (not (is_known_base base) ≡ false)
            × (0 < dtype_size t))
          (check_common rows cols nnz base t)
          s
  unfolding check_common
  Accepts-check_common rows cols nnz base t s =
      Accepts-refuse (lt_ℤ rows (pos 0) || lt_ℤ cols (pos 0) || lt_ℤ nnz (pos 0)) _ _ _ (λ h.
        Accepts-refuse (not (is_known_base base)) _ _ _ (λ i.
          Accepts-last (dtype_size t == 0) _ _ (λ j.
            let z = sizes_known rows cols nnz h in
            (z.0, z.1, z.2, i, known_positive (dtype_size t) j))))

  Keeps-check_common :
      (P : State Mem → Type 0) (rows cols nnz : ℤ) (base : IndexBase) (t : DataType)
      (f : Unit {0} → Call Mem)
      → (pos 0 ≤ℤ rows
          → pos 0 ≤ℤ cols
          → pos 0 ≤ℤ nnz
          → not (is_known_base base) ≡ false
          → 0 < dtype_size t
          → Keeps P (f tt))
      → Keeps P (check_common rows cols nnz base t >>= f)
  Keeps-check_common P rows cols nnz base t f k =
      Keeps-bind-Accepts _ f (common-Keeps P rows cols nnz base t)
        (Accepts-check_common rows cols nnz base t) (λ u z. k z.0 z.1 z.2 z.3 z.4)

  Keeps-check_index :
      (P : State Mem → Type 0) (t u : IndexType) (f : Unit {0} → Call Mem)
      → (0 < index_size t → 0 < index_size u → Keeps P (f tt))
      → Keeps P (check_index t u >>= f)
  unfolding check_index
  Keeps-check_index P t u f k =
      Keeps-refuse-bind (index_size t == 0 || index_size u == 0) _ f
        (λ h. k (ground arith) (ground arith))

  ruleset create_steps = (
    Keeps-refuse-bind, Keeps-check_common, Keeps-check_index, publish-AllValid, Keeps-bind,
    set_cell-AllValid,
  )

  pub create_csr-AllValid :
      (descr : ℕ) (rows cols nnz : ℤ) (offsets indices values : ℕ) (t u : IndexType)
      (base : IndexBase) (vtype : DataType) (p : ℕ)
      → Keeps
          (AllValid {Mem = Mem})
          (create_csr descr rows cols nnz offsets indices values t u base vtype p)
  unfolding create_csr
  create_csr-AllValid descr rows cols nnz offsets indices values t u base vtype p =
      search (create_steps, csr-IsValid) depth 20

  pub create_csc-AllValid :
      (descr : ℕ) (rows cols nnz : ℤ) (offsets indices values : ℕ) (t u : IndexType)
      (base : IndexBase) (vtype : DataType) (p : ℕ)
      → Keeps
          (AllValid {Mem = Mem})
          (create_csc descr rows cols nnz offsets indices values t u base vtype p)
  unfolding create_csc
  create_csc-AllValid descr rows cols nnz offsets indices values t u base vtype p =
      search (create_steps, csc-IsValid) depth 20

  pub create_coo-AllValid :
      (descr : ℕ) (rows cols nnz : ℤ) (row_ind col_ind values : ℕ) (t : IndexType)
      (base : IndexBase) (vtype : DataType) (p : ℕ)
      → Keeps
          (AllValid {Mem = Mem})
          (create_coo descr rows cols nnz row_ind col_ind values t base vtype p)
  unfolding create_coo
  create_coo-AllValid descr rows cols nnz row_ind col_ind values t base vtype p =
      search (create_steps, coo-IsValid) depth 20

  pub create_bsr-AllValid :
      (descr : ℕ) (rows cols nnz row_dim col_dim : ℤ) (offsets indices values : ℕ) (t u : IndexType)
      (base : IndexBase) (vtype : DataType) (order : Order) (p : ℕ)
      → Keeps (AllValid {Mem = Mem}) (
          create_bsr descr rows cols nnz row_dim col_dim offsets indices values t u base vtype order
            p)
  unfolding create_bsr
  create_bsr-AllValid descr rows cols nnz row_dim col_dim offsets indices values t u base vtype
        order p =
      search (create_steps, bsr-IsValid) depth 20

  pub create_blocked_ell-AllValid :
      (descr : ℕ) (rows cols block_size ell_cols : ℤ) (col_ind value : ℕ) (t : IndexType)
      (base : IndexBase) (vtype : DataType) (p : ℕ)
      → Keeps
          (AllValid {Mem = Mem})
          (create_blocked_ell descr rows cols block_size ell_cols col_ind value t base vtype p)
  unfolding create_blocked_ell
  create_blocked_ell-AllValid descr rows cols block_size ell_cols col_ind value t base vtype p =
      search (create_steps, blocked_ell-IsValid) depth 20

  pub create_sliced_ell-AllValid :
      (descr : ℕ) (rows cols slice_size : ℤ) (offsets col_ind values : ℕ) (t : IndexType)
      (base : IndexBase) (vtype : DataType) (p : ℕ)
      → Keeps
          (AllValid {Mem = Mem})
          (create_sliced_ell descr rows cols slice_size offsets col_ind values t base vtype p)
  unfolding create_sliced_ell
  create_sliced_ell-AllValid descr rows cols slice_size offsets col_ind values t base vtype p =
      search (create_steps, sliced_ell-IsValid) depth 20
