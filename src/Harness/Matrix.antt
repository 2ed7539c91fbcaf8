-- ===== src/Harness/Matrix.antt =====
-- The host matrices of ctest/common.hpp and ctest/sweep.hpp, and the oracles computed from them.
use cwapper.Base.{
  ℤ, pos, pos_part, ◌-ℤ◌, to_word, ℕ, zero, suc, ◌+◌, ◌-◌, ◌*◌, ◌||◌, List, [], ◌∷◌, ◌++◌, map,
  length, get_or, take, drop, replicate, table, leb, min, if◌then◌else◌,
}
use cwapper.Floats.{Doubles}
use cwapper.Meta.{accumulate}

-- CsrMatrix, and TriMatrix with its n as rows and columns.
pub record CsrMatrix (V : Type 0) : Type 0 where
  pub rows : ℕ
  pub cols : ℕ
  pub nnz : ℕ
  pub indptr : List ℤ
  pub indices : List ℕ
  pub values : List V

abbrev pub span : {A : Type 0} → ℕ → ℕ → List A → List A
span begin end xs = take (end - begin) (drop begin xs)

-- indices[p] with values[p], as far as both go.
abbrev pub zip : {A : Type 0} → List ℕ → List A → List (ℕ × A)
zip [] vs = []
zip (c ∷ cs) [] = []
zip (c ∷ cs) (v ∷ vs) = (c, v) ∷ zip cs vs

-- The entries from indptr[r] up to indptr[r + 1]. (An index outside the arrays is outside the model.)
unfoldable pub row : {V : Type 0} → CsrMatrix V → ℕ → List (ℕ × V)
row a r =
    let begin = pos_part (get_or a.indptr r (pos 0)) in
    let end = pos_part (get_or a.indptr (suc r) (pos 0)) in
    zip (span begin end a.indices) (span begin end a.values)

-- expand_rows from row `r` on: a row index, cast to int32_t, for every entry.
unfoldable pub expand_rows : ℕ → List ℤ → List ℤ
expand_rows r [] = []
expand_rows r (begin ∷ []) = []
expand_rows r (begin ∷ end ∷ rest) =
    replicate (pos_part (end -ℤ begin)) (to_word r) ++ expand_rows (suc r) (end ∷ rest)

abbrev pub flatten : {A : Type 0} → List (List A) → List A
flatten [] = []
flatten (xs ∷ xss) = xs ++ flatten xss

-- What a loop over the rows pushes: the offsets are the sizes so far, cast to int32_t. The columns are
-- below `cols`, which an int32_t holds, so their cast changes nothing.
unfoldable pub pack : {V : Type 0} → ℕ → ℕ → List (List (ℕ × V)) → CsrMatrix V
pack rows cols entries =
    let whole = flatten entries in
    record {
      rows = rows;
      cols = cols;
      nnz = length whole;
      indptr = map to_word (0 ∷ accumulate 0 (map length entries));
      indices = map (λ e. e.0) whole;
      values = map (λ e. e.1) whole;
    }

module _ (d : Doubles) where
  -- acc += values[p] * x[indices[p]], over a row.
  unfoldable pub dot : List d.V → d.V → List (ℕ × d.V) → d.V
  dot x acc [] = acc
  dot x acc ((c, v) ∷ rest) = dot x (d.plus acc (d.times v (get_or x c d.zero))) rest

  -- alpha * acc + (beta == 0 ? 0 : beta * y)
  unfoldable pub combine : d.V → d.V → d.V → d.V → d.V
  combine alpha beta acc y =
      d.plus (d.times alpha acc) (if d.is_zero beta then d.zero else d.times beta y)

  unfoldable pub spmv_reference : CsrMatrix d.V → List d.V → d.V → d.V → List d.V → List d.V
  unfolding dot combine row
  spmv_reference a x alpha beta y_in =
      table 0 a.rows (λ r. combine alpha beta (dot x d.zero (row a r)) (get_or y_in r d.zero))

  -- acc += values[p] * B[indices[p] * n + j], over a row.
  unfoldable pub dot_column : List d.V → ℕ → ℕ → d.V → List (ℕ × d.V) → d.V
  dot_column b n j acc [] = acc
  dot_column b n j acc ((c, v) ∷ rest) =
      dot_column b n j (d.plus acc (d.times v (get_or b (c * n + j) d.zero))) rest

  -- The rows of C from `r` on, one behind the other: the element of row r and column j is at r * n + j.
  unfoldable pub product_rows :
      CsrMatrix d.V → List d.V → ℕ → d.V → d.V → List d.V → ℕ → ℕ → List d.V
  unfolding dot_column combine row
  product_rows a b n alpha beta c_in r zero = []
  product_rows a b n alpha beta c_in r (suc k) =
      table 0 n (λ j.
        combine alpha beta (dot_column b n j d.zero (row a r)) (get_or c_in (r * n + j) d.zero))
      ++ product_rows a b n alpha beta c_in (suc r) k

  unfoldable pub spmm_reference : CsrMatrix d.V → List d.V → ℕ → d.V → d.V → List d.V → List d.V
  unfolding product_rows
  spmm_reference a b n alpha beta c_in = product_rows a b n alpha beta c_in 0 a.rows

  abbrev in_front : ℕ × d.V → List (ℕ × d.V) × d.V → List (ℕ × d.V) × d.V
  in_front e (es, off) = (e ∷ es, off)

  -- What lower_triangle keeps of a row, and the sum of the magnitudes that it keeps.
  unfoldable pub below_diagonal : ℕ → ℕ → d.V → List (ℕ × d.V) → List (ℕ × d.V) × d.V
  below_diagonal r cols off [] = ([], off)
  below_diagonal r cols off ((c, v) ∷ rest) =
      let skipped = below_diagonal r cols off rest in
      let later = below_diagonal r cols (d.plus off (d.magnitude v)) rest in
      if leb r c || leb cols c then skipped else in_front (c, v) later

  -- A row of the triangle: the diagonal stands last and dominates it.
  unfoldable pub triangle_row : ℕ → ℕ → List (ℕ × d.V) → List (ℕ × d.V)
  unfolding below_diagonal
  triangle_row r cols entries =
      let kept = below_diagonal r cols d.zero entries in kept.0 ++ (r, d.plus d.one (kept.1)) ∷ []

  unfoldable pub lower_triangle : CsrMatrix d.V → CsrMatrix d.V
  unfolding triangle_row pack row
  lower_triangle a =
      let n = min a.rows a.cols in pack n n (table 0 n (λ r. triangle_row r n (row a r)))
