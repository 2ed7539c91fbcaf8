-- ===== src/Strides/Address.antt =====
-- Where the elements of a dense operand stand, for src/ops/spmm.cpp, src/ops/sddmm.cpp and
-- src/ops/spsm.cpp.
use cwapper.Base.{
  ℕ, ◌⊎◌, inl, inr, Bool-cases, suc, ◌+◌, ◌*◌, ◌≤◌, ◌<◌, ◌≡◌, refl, sym, ap, ◌∙◌, arith, true, ℤ,
  pos, ◌≤ℤ◌, ◌*ℤ◌, ◌+ℤ◌, if◌then◌else◌,
}
use native.Mathlib.Nat.{mul-le-mul_right}
use cwapper.Types.{Operation, is_row_major, is_known_order, transposes}
use cwapper.Descr.{DnMatDescr}
use cwapper.Create.Dense.{fastest_extent}
use cwapper.Strides.{DenseStrides, strides_of, op_strides, op_rows, op_cols}

-- The element that the kernels read at row i and column j, from the start of the array.
abbrev pub offset_of : DenseStrides → ℕ → ℕ → ℤ
offset_of t i j = (pos i *ℤ t.row) +ℤ (pos j *ℤ t.col)

-- What flagsparseCreateDnMat makes sure of.
pub record IsSpanned (d : DnMatDescr) : Type 0 where
  pub order : is_known_order d.order ≡ true
  pub ld : fastest_extent d.order d.rows d.cols ≤ℤ d.ld

next_line : (i k ld : ℕ) → i < k → i * ld + ld ≤ k * ld
next_line i k ld h = let here : suc i * ld ≤ k * ld = mul-le-mul_right ld h in ground arith

order_cases : (i k : ℕ) → (i < k) ⊎ ((i ≡ k) ⊎ (k < i))
order_cases i k = ground arith

-- Lines of ld places: two elements on one place are one element.
packed : (i j k l ld : ℕ) → j < ld → l < ld → i * ld + j ≡ k * ld + l → (i ≡ k) × (j ≡ l)
packed i j k l ld hj hl place = elim (order_cases i k) [
  | inl h ↦ let line = next_line i k ld h in ground arith
  | inr (inl e) ↦ let line : i * ld ≡ k * ld = ap (λ n. n * ld) e in (e, omega (arith, line, place))
  | inr (inr h) ↦ let line = next_line k i ld h in ground arith
]

+ℤ_comm : (a b : ℤ) → a +ℤ b ≡ b +ℤ a
unfolding ◌+ℤ◌
+ℤ_comm a b = ground arith

by_rows : (i j ld : ℕ) → (pos i *ℤ pos ld) +ℤ (pos j *ℤ pos 1) ≡ pos (i * ld + j)
unfolding ◌*ℤ◌ ◌+ℤ◌
by_rows i j ld = ground arith

by_cols : (i j ld : ℕ) → (pos i *ℤ pos 1) +ℤ (pos j *ℤ pos ld) ≡ pos (j * ld + i)
unfolding ◌*ℤ◌ ◌+ℤ◌
by_cols i j ld = ground arith

pos_inj : (a b : ℕ) → pos a ≡ pos b → a ≡ b
pos_inj a b h = cc

-- The place of an element in the lines of the array: (line, place in the line).
abbrev pub line_of : Operation → DnMatDescr → ℕ → ℕ → ℕ × ℕ
line_of op d i j =
    if is_row_major d.order
    then (if transposes op then (j, i) else (i, j))
    else (if transposes op then (i, j) else (j, i))

offset_of-line_of :
    (op : Operation) (d : DnMatDescr) (i j ld : ℕ)
    → d.ld ≡ pos ld
    → offset_of (op_strides op d) i j ≡ pos ((line_of op d i j).0 * ld + (line_of op d i j).1)
unfolding op_strides strides_of
offset_of-line_of op d i j ld e = elim (Bool-cases (is_row_major d.order)) [
  | inl r ↦ elim (Bool-cases (transposes op)) [
    | inl t ↦ rw (r, t, e) (by_cols i j ld)
    | inr t ↦ rw (r, t, e) (by_rows i j ld)
  ]
  | inr r ↦ elim (Bool-cases (transposes op)) [
    | inl t ↦ rw (r, t, e) (by_rows i j ld)
    | inr t ↦ rw (r, t, e) (by_cols i j ld)
  ]
]

in_line :
    (op : Operation) (d : DnMatDescr) (i j ld : ℕ)
    → IsSpanned d
    → d.ld ≡ pos ld
    → pos (suc i) ≤ℤ op_rows op d
    → pos (suc j) ≤ℤ op_cols op d
    → (line_of op d i j).1 < ld
unfolding op_rows op_cols
in_line op d i j ld v e hi hj = let known = v.order in let spans = v.ld in ground arith

lines_back :
    (op : Operation) (d : DnMatDescr) (i j k l : ℕ)
    → (line_of op d i j).0 ≡ (line_of op d k l).0
    → (line_of op d i j).1 ≡ (line_of op d k l).1
    → (i ≡ k) × (j ≡ l)
lines_back op d i j k l h g = ground arith

-- For a dense operand as flagsparseCreateDnMat makes it, with ld as its leading dimension, the strides
-- that SpMM, SDDMM and SpSM take for op(M) address different elements of op(M) at different places.
pub op_strides-injective :
    (op : Operation) (d : DnMatDescr) (ld : ℕ)
    → IsSpanned d
    → d.ld ≡ pos ld
    → (i j k l : ℕ) → pos (suc i) ≤ℤ op_rows op d
    → pos (suc j) ≤ℤ op_cols op d
    → pos (suc k) ≤ℤ op_rows op d
    → pos (suc l) ≤ℤ op_cols op d
    → offset_of (op_strides op d) i j ≡ offset_of (op_strides op d) k l
    → (i ≡ k) × (j ≡ l)
op_strides-injective op d ld v e i j k l hi hj hk hl h =
    let (line, place) =
      packed (line_of op d i j).0 (line_of op d i j).1 (line_of op d k l).0 (line_of op d k l).1 ld
        (in_line op d i j ld v e hi hj) (in_line op d k l ld v e hk hl)
        (pos_inj _ _
          (sym (offset_of-line_of op d i j ld e) ∙ h ∙ offset_of-line_of op d k l ld e)) in
    lines_back op d i j k l line place

-- The element of op(M) in row i and column j is, for a transposition, the element of M in row j and
-- column i; and the strides that the operators take for op(M) address it there.
pub op_strides-transposed :
    (op : Operation) (d : DnMatDescr) (i j : ℕ)
    → offset_of (op_strides op d) i j
      ≡ (if transposes op then offset_of (strides_of d) j i else offset_of (strides_of d) i j)
unfolding op_strides
op_strides-transposed op d i j = elim (Bool-cases (transposes op)) [
  | inl t ↦ rw (t) (+ℤ_comm (pos i *ℤ (strides_of d).col) (pos j *ℤ (strides_of d).row))
  | inr t ↦ rw (t) refl
]
