-- ===== src/Harness/Triangle.antt =====
-- lower_triangle of ctest/sweep.hpp: the rows of the triangle.
use cwapper.Base.{
  int32_max, pos_part, ◌≤◌, ℕ, zero, suc, ◌+◌, ◌-◌, ◌≡◌, ◌≤◌, ◌<◌, refl, ap, subst, ◌∙◌, arith, inl,
  inr, Bool-cases, ℤ, pos, lt_ℤ, true, ◌||◌, Option, none, some, List, [], ◌∷◌, ◌++◌, map, length,
  get_or, get_or-table, length-table, take, drop, table, All, min, leb, drop-map, take-map,
}
use cwapper.Floats.{Doubles}
use cwapper.Meta.{slice}
use cwapper.Meta.Sorted.{IsAbove, IsAscending, IsSortedCsr}
use cwapper.Harness.Matrix.{CsrMatrix, span, zip, row, below_diagonal, triangle_row, lower_triangle}
use cwapper.Harness.Packed.{columns_of, row-pack, pack-IsSortedCsr}

-- Every column is at least the bound, and above the one before it.
abbrev IsRising : {V : Type 0} → ℕ → List (ℕ × V) → Type 0
IsRising lo [] = Unit {0}
IsRising lo ((c, v) ∷ rest) = (lo ≤ c) × IsRising (suc c) rest

abbrev IsUnder : Option ℤ → ℕ → Type 0
IsUnder none lo = Unit {0}
IsUnder (some q) lo = lt_ℤ q (pos lo) ≡ true

module _ {V : Type 0} where
  zip-IsRising :
      (cols : ℤ) (previous : Option ℤ) (lo : ℕ) (cs : List ℕ) (vs : List V)
      → IsAscending cols previous (map pos cs)
      → ((c : ℕ) → IsAbove previous (pos c) → lo ≤ c)
      → IsRising lo (zip cs vs)
  zip-IsRising cols previous lo [] vs h k = tt
  zip-IsRising cols previous lo (c ∷ cs) [] h k = tt
  zip-IsRising cols previous lo (c ∷ cs) (v ∷ vs) h k =
      (k c h.2, zip-IsRising cols (some (pos c)) (suc c) cs vs h.3 (λ d above. ground arith))

  IsRising-IsAscending :
      (cols : ℕ) (previous : Option ℤ) (lo : ℕ) (xs : List (ℕ × V))
      → ((c : ℕ) → lo ≤ c → IsAbove previous (pos c))
      → IsRising lo xs
      → All (λ (e : ℕ × V). e.0 < cols) xs
      → IsAscending (pos cols) previous (columns_of xs)
  IsRising-IsAscending cols previous lo [] k h narrow = tt
  IsRising-IsAscending cols previous lo ((c, v) ∷ xs) k h narrow = (
    omega arith,
    ground arith,
    k c h.0,
    IsRising-IsAscending cols (some (pos c)) (suc c) xs (λ d above. ground arith) h.1 narrow.1,
  )

module _ (d : Doubles) where
  below_diagonal-IsRising :
      (r cols lo bound : ℕ) (off : d.V) (entries : List (ℕ × d.V)) (last : d.V)
      → IsRising lo entries
      → bound ≤ lo
      → bound ≤ r
      → IsRising bound ((below_diagonal d r cols off entries).0 ++ (r, last) ∷ [])
  unfolding below_diagonal
  below_diagonal-IsRising r cols lo bound off [] last h le at = (at, tt)
  below_diagonal-IsRising r cols lo bound off ((c, v) ∷ rest) last h le at =
      elim (Bool-cases (leb r c || leb cols c)) [
        | inl e ↦
            rw (e) (below_diagonal-IsRising r cols (suc c) bound off rest last h.1 (omega arith) at)
        | inr e ↦
            let left : c < r = ground arith in
            rw (e) (
              omega arith,
              below_diagonal-IsRising r cols (suc c) (suc c) (d.plus off (d.magnitude v)) rest last
                  h.1 (omega arith) left,
            )
      ]

  below_diagonal-All :
      (r cols : ℕ) (off : d.V) (entries : List (ℕ × d.V))
      → All (λ (e : ℕ × d.V). (e.0 < r) × (e.0 < cols)) (below_diagonal d r cols off entries).0
  unfolding below_diagonal
  below_diagonal-All r cols off [] = tt
  below_diagonal-All r cols off ((c, v) ∷ rest) = elim (Bool-cases (leb r c || leb cols c)) [
    | inl e ↦ rw (e) (below_diagonal-All r cols off rest)
    | inr e ↦
        let inside : (c < r) × (c < cols) = ground arith in
        rw (e) (inside, below_diagonal-All r cols (d.plus off (d.magnitude v)) rest)
  ]

  -- The sum of the magnitudes, from left to right.
  abbrev pub weight : d.V → List (ℕ × d.V) → d.V
  weight off [] = off
  weight off ((c, v) ∷ rest) = weight (d.plus off (d.magnitude v)) rest

  below_diagonal-weight :
      (r cols : ℕ) (off : d.V) (entries : List (ℕ × d.V))
      → (below_diagonal d r cols off entries).1 ≡ weight off (below_diagonal d r cols off entries).0
  unfolding below_diagonal
  below_diagonal-weight r cols off [] = refl
  below_diagonal-weight r cols off ((c, v) ∷ rest) = elim (Bool-cases (leb r c || leb cols c)) [
    | inl e ↦ rw (e) (below_diagonal-weight r cols off rest)
    | inr e ↦ rw (e) (below_diagonal-weight r cols (d.plus off (d.magnitude v)) rest)
  ]

  triangle_row-IsAscending :
      (r n : ℕ) (entries : List (ℕ × d.V))
      → r < n
      → IsRising 0 entries
      → IsAscending (pos n) none (columns_of (triangle_row d r n entries))
  unfolding triangle_row
  triangle_row-IsAscending r n entries lt h =
      let kept = below_diagonal d r n d.zero entries in
      let last = d.plus d.one kept.1 in
      IsRising-IsAscending n none 0 (kept.0 ++ (r, last) ∷ []) (λ c le. tt)
        (below_diagonal-IsRising r n 0 0 d.zero entries last h (omega arith) (omega arith))
        (closed kept.0 last (below_diagonal-All r n d.zero entries))
    where
      closed :
          (es : List (ℕ × d.V)) (last : d.V)
          → All (λ (e : ℕ × d.V). (e.0 < r) × (e.0 < n)) es
          → All (λ (e : ℕ × d.V). e.0 < n) (es ++ (r, last) ∷ [])
      closed [] last k = (lt, tt)
      closed (e ∷ es) last k = (k.0.1, closed es last k.1)

table-All :
    {A : Type 0} (P : A → Type 0) (lo n : ℕ) (f : ℕ → A)
    → ((i : ℕ) → i < lo + n → P (f i))
    → All P (table lo n f)
table-All P lo zero f h = tt
table-All P lo (suc n) f h =
    (h lo (omega arith), table-All P (suc lo) n f (λ i lt. h i (omega arith)))

-- The columns of one row of a matrix that passes the check.
IsSortedCsr-row :
    (cols nnz : ℤ) (columns : List ℤ) (offsets : List ℤ) (r : ℕ)
    → IsSortedCsr cols nnz columns offsets
    → suc r < length offsets
    → IsAscending cols none
        (slice (get_or offsets r (pos 0)) (get_or offsets (suc r) (pos 0)) columns)
IsSortedCsr-row cols nnz columns [] r h lt = absurd (omega (arith, lt))
IsSortedCsr-row cols nnz columns (a ∷ []) r h lt = absurd (omega (arith, lt))
IsSortedCsr-row cols nnz columns (a ∷ b ∷ rest) zero h lt = h.3
IsSortedCsr-row cols nnz columns (a ∷ b ∷ rest) (suc r) h lt =
    IsSortedCsr-row cols nnz columns (b ∷ rest) r h.4 (omega (arith, lt))

module _ (d : Doubles) (a : CsrMatrix d.V) where
  row-IsRising :
      (cols nnz : ℤ) (r : ℕ)
      → length a.indptr ≡ suc a.rows
      → IsSortedCsr cols nnz (map pos a.indices) a.indptr
      → r < a.rows
      → IsRising 0 (row a r)
  unfolding row slice
  row-IsRising cols nnz r size h lt =
      let begin = pos_part (get_or a.indptr r (pos 0)) in
      let end = pos_part (get_or a.indptr (suc r) (pos 0)) in
      let ascending =
        IsSortedCsr-row cols nnz (map pos a.indices) a.indptr r h (omega (arith, size, lt)) in
      let moved =
        ap (take (end - begin)) (drop-map pos begin a.indices)
        ∙ take-map pos (end - begin) (drop begin a.indices) in
      zip-IsRising cols none 0 (span begin end a.indices) (span begin end a.values)
        (subst (IsAscending cols none) moved ascending) (λ c above. omega arith)

  -- The matrix that a solve is measured on. Where the columns of each row of A ascend in range, as
  -- read_csr leaves them, and an int32_t holds the number of the triangle's entries: the columns of the
  -- triangle ascend in range too, as the solve's analysis wants them; and a row of it is entries left of
  -- the diagonal, and then the diagonal with 1 and the sum of their magnitudes.
  pub lower_triangle-IsSortedCsr :
      (cols nnz : ℤ) (r : ℕ)
      → length a.indptr ≡ suc a.rows
      → IsSortedCsr cols nnz (map pos a.indices) a.indptr
      → r < min a.rows a.cols
      → (lower_triangle d a).nnz ≤ int32_max
      → IsSortedCsr
          (pos (lower_triangle d a).cols)
          (pos (lower_triangle d a).nnz)
          (map pos (lower_triangle d a).indices)
          (lower_triangle d a).indptr
        × ((kept : List (ℕ × d.V)) × (row (lower_triangle d a) r
              ≡ kept ++ (r, d.plus d.one (weight d d.zero kept)) ∷ [])
            × All (λ (e : ℕ × d.V). (e.0 < r) × (e.0 < min a.rows a.cols)) kept)
  unfolding lower_triangle triangle_row
  lower_triangle-IsSortedCsr cols nnz r size h lt small =
      let n = min a.rows a.cols in
      let f : ℕ → List (ℕ × d.V) = λ i. triangle_row d i n (row a i) in
      let entries = table 0 n f in
      let kept = below_diagonal d r n d.zero (row a r) in
      let zero_based : 0 + r ≡ r = ground arith in
      (
        pack-IsSortedCsr n n entries small (
            table-All (λ xs. IsAscending (pos n) none (columns_of xs)) 0 n f
              (λ i inside.
                triangle_row-IsAscending d i n (row a i) (omega (arith, inside))
                  (row-IsRising cols nnz i size h (omega (arith, inside))))),
        (
          kept.0,
          row-pack n n r entries small (omega (arith, length-table 0 n f, lt))
              ∙ get_or-table 0 n r f [] lt
              ∙ ap f zero_based
              ∙ ap (λ off. kept.0 ++ (r, d.plus d.one off) ∷ [])
                  (below_diagonal-weight d r n d.zero (row a r)),
          below_diagonal-All d r n d.zero (row a r),
        ),
      )
