-- ===== src/Harness/Oracles.antt =====
-- The products of ctest/common.hpp agree: spmm_reference is spmv_reference column by column.
use cwapper.Base.{
  pos, pos_part, ℕ, zero, suc, ◌+◌, ◌*◌, ◌-◌, ◌≡◌, ◌<◌, refl, sym, ap, ◌∙◌, arith, List, [], ◌∷◌,
  ◌++◌, get_or, drop, table, All, get_or-table, get_or-append_left, get_or-append_right,
  length-table, take-All, drop-All,
}
use cwapper.Floats.{Doubles}
use cwapper.Harness.Matrix.{
  CsrMatrix, span, zip, row, dot, dot_column, combine, spmv_reference, product_rows, spmm_reference,
}

-- Column j of a row-major matrix with n columns and so many rows.
abbrev pub column : (d : Doubles) → List d.V → ℕ → ℕ → ℕ → List d.V
column d b rows n j = table 0 rows (λ i. get_or b (i * n + j) d.zero)

module _ (d : Doubles) where
  zip-All :
      (P : ℕ → Type 0) (cs : List ℕ) (vs : List d.V)
      → All P cs
      → All (λ (e : ℕ × d.V). P e.0) (zip cs vs)
  zip-All P [] vs h = tt
  zip-All P (c ∷ cs) [] h = tt
  zip-All P (c ∷ cs) (v ∷ vs) h = (h.0, zip-All P cs vs h.1)

  dot_column-dot :
      (b : List d.V) (k n j : ℕ) (acc : d.V) (entries : List (ℕ × d.V))
      → All (λ (e : ℕ × d.V). e.0 < k) entries
      → dot_column d b n j acc entries ≡ dot d (column d b k n j) acc entries
  unfolding dot_column dot
  dot_column-dot b k n j acc [] h = refl
  dot_column-dot b k n j acc ((c, v) ∷ rest) h =
      let zero_based : 0 + c ≡ c = ground arith in
      let here =
        get_or-table 0 k c (λ i. get_or b (i * n + j) d.zero) d.zero h.0
        ∙ ap (λ i. get_or b (i * n + j) d.zero) zero_based in
      rw (here)
        (dot_column-dot b k n j (d.plus acc (d.times v (get_or b (c * n + j) d.zero))) rest h.1)

  module _ (a : CsrMatrix d.V) (b : List d.V) (n : ℕ) (alpha beta : d.V) (c_in : List d.V) where
    element : ℕ → ℕ → d.V
    element r j =
        combine d alpha beta (dot_column d b n j d.zero (row a r)) (get_or c_in (r * n + j) d.zero)

    product_rows-element :
        (k r i j : ℕ)
        → i < k
        → j < n
        → get_or (product_rows d a b n alpha beta c_in r k) (i * n + j) d.zero ≡ element (r + i) j
    unfolding product_rows element
    product_rows-element zero r i j h lt = elim h [ ]
    product_rows-element (suc k) r zero j h lt =
        let first = table 0 n (element r) in
        let later = product_rows d a b n alpha beta c_in (suc r) k in
        let place : 0 * n + j ≡ j = grind arith in
        let zero_based : 0 + j ≡ j = ground arith in
        let this_row : r ≡ r + 0 = ground arith in
        ap (λ p. get_or (first ++ later) p d.zero) place
        ∙ get_or-append_left first later j d.zero (omega (arith, length-table 0 n (element r)))
        ∙ get_or-table 0 n j (element r) d.zero lt
        ∙ ap (element r) zero_based
        ∙ ap (λ p. element p j) this_row
    product_rows-element (suc k) r (suc i) j h lt =
        let first = table 0 n (element r) in
        let later = product_rows d a b n alpha beta c_in (suc r) k in
        let size = length-table 0 n (element r) in
        let place : suc i * n + j ≡ n + (i * n + j) = grind arith in
        let this_row : suc r + i ≡ r + suc i = ground arith in
        ap (λ p. get_or (first ++ later) p d.zero) (place ∙ ap (λ p. p + (i * n + j)) (sym size))
        ∙ get_or-append_right first later (i * n + j) d.zero
        ∙ product_rows-element k (suc r) i j (omega (arith, h)) lt
        ∙ ap (λ p. element p j) this_row

    -- For a matrix whose columns are below k, and any B of k rows and n columns: the element of
    -- spmm_reference in row r and column j is that of spmv_reference on column j of B and of C. The two
    -- take the same roundings in the same order.
    spmm_reference-spmv_reference :
        (k r j : ℕ)
        → All (λ c. c < k) a.indices
        → r < a.rows
        → j < n
        → get_or (spmm_reference d a b n alpha beta c_in) (r * n + j) d.zero
          ≡ get_or
              (spmv_reference d a (column d b k n j) alpha beta (column d c_in a.rows n j))
              r
              d.zero
    unfolding spmm_reference spmv_reference element row
    spmm_reference-spmv_reference k r j narrow inside lt =
        let begin = pos_part (get_or a.indptr r (pos 0)) in
        let end = pos_part (get_or a.indptr (suc r) (pos 0)) in
        let columns_of_row =
          zip-All (λ c. c < k) (span begin end a.indices) (span begin end a.values)
            (take-All (λ c. c < k) (end - begin) (drop begin a.indices)
              (drop-All (λ c. c < k) begin a.indices narrow)) in
        let zero_based : 0 + r ≡ r = ground arith in
        let y = get_or-table 0 a.rows r (λ i. get_or c_in (i * n + j) d.zero) d.zero inside in
        let v =
          get_or-table 0 a.rows r
            (λ i.
              combine d alpha beta (dot d (column d b k n j) d.zero (row a i))
                (get_or (column d c_in a.rows n j) i d.zero))
            d.zero inside in
        product_rows-element a.rows 0 r j inside lt
        ∙ ap (λ i. element i j) zero_based
        ∙ ap (λ acc. combine d alpha beta acc (get_or c_in (r * n + j) d.zero))
            (dot_column-dot b k n j d.zero (row a r) columns_of_row)
        ∙ ap (λ x. combine d alpha beta (dot d (column d b k n j) d.zero (row a r)) x)
            (sym (y ∙ ap (λ i. get_or c_in (i * n + j) d.zero) zero_based))
        ∙ sym (
            v
            ∙ ap
                (λ i.
                  combine d alpha beta (dot d (column d b k n j) d.zero (row a i))
                    (get_or (column d c_in a.rows n j) i d.zero))
                zero_based)
