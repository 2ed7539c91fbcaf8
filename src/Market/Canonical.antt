-- ===== src/Market/Canonical.antt =====
-- The matrix that ctest/mmio.hpp returns: the form that src/core/csr_meta.cpp checks for.
use cwapper.Base.{
  table, table-≡, ℕ, zero, suc, ◌+◌, ◌-◌, ◌≡◌, ◌<◌, ap, ◌∙◌, arith, ℤ, pos, lt_ℤ, true, List, [],
  ◌∷◌, map, length, get_or, take, drop, All, none, length-drop, drop-add, take-map, drop-map,
  take-All, drop-All,
}
use cwapper.Meta.{accumulate, slice}
use cwapper.Meta.Sorted.{IsSortedCsr}
use cwapper.Market.{Entry}
use cwapper.Market.Order.{IsStrict}
use cwapper.Market.Rows.{
  count_row, count_row-drop, count_row-le-length, IsFrom, IsNarrow, splits, columns, take-IsStrict,
  drop-IsStrict, row-IsAscending, unbounded,
}

module _ {V : Type 0} where
  -- The entries of the rows `lo` up to `lo + n`, in order.
  pub record AreRows (cols : ℤ) (lo n : ℕ) (es : List (Entry V)) : Type 0 where
    pub strict : IsStrict es
    pub start : IsFrom lo es
    pub stop : All (λ (x : Entry V). x.r < lo + n) es
    pub narrow : IsNarrow cols es

  later_rows :
      (cols : ℤ) (lo n : ℕ) (es : List (Entry V))
      → AreRows cols lo (suc n) es
      → AreRows cols (suc lo) n (drop (count_row lo es) es)
  later_rows cols lo n es h =
      let cut = splits lo es h.strict h.start in
      record {
        strict = drop-IsStrict (count_row lo es) es h.strict;
        start = cut.outside;
        stop =
            lower (drop (count_row lo es) es)
              (drop-All (λ (x : Entry V). x.r < lo + suc n) (count_row lo es) es h.stop);
        narrow =
            drop-All (λ (x : Entry V). lt_ℤ (pos x.c) cols ≡ true) (count_row lo es) es h.narrow;
      }
    where
      lower :
          (xs : List (Entry V))
          → All (λ (x : Entry V). x.r < lo + suc n) xs
          → All (λ (x : Entry V). x.r < suc lo + n) xs
      lower [] k = tt
      lower (x ∷ xs) k = (ground arith, lower xs k.1)

  -- The columns of the first row.
  first_row :
      (cols : ℤ) (lo n a : ℕ) (whole : List ℤ) (es : List (Entry V))
      → AreRows cols lo (suc n) es
      → drop a whole ≡ columns es
      → slice (pos a) (pos (a + count_row lo es)) whole ≡ columns (take (count_row lo es) es)
  unfolding slice
  first_row cols lo n a whole es h e =
      let size : (a + count_row lo es) - a ≡ count_row lo es = ground arith in
      rw (size, e) (take-map (λ (x : Entry V). pos x.c) (count_row lo es) es)

  pub offsets-IsSortedCsr :
      (cols : ℤ) (lo n a nnz : ℕ) (whole : List ℤ) (es : List (Entry V))
      → AreRows cols lo n es
      → drop a whole ≡ columns es
      → nnz ≡ a + length es
      → IsSortedCsr cols
          (pos nnz)
          whole
          (map pos (a ∷ accumulate a (table lo n (λ i. count_row i es))))
        × (get_or (a ∷ accumulate a (table lo n (λ i. count_row i es))) n 0 ≡ nnz)
  unfolding accumulate
  offsets-IsSortedCsr cols lo zero a nnz whole [] h e size = (tt, ground arith)
  offsets-IsSortedCsr cols lo zero a nnz whole (x ∷ xs) h e size =
      let low = h.start.0 in let high = h.stop.0 in absurd (omega (arith, low, high))
  offsets-IsSortedCsr cols lo (suc n) a nnz whole es h e size =
      let k = count_row lo es in
      let cut = splits lo es h.strict h.start in
      let fits = count_row-le-length lo es in
      let left = length-drop k (length es - k) es (ground arith) in
      let moved : drop (a + k) whole ≡ columns (drop k es) =
        drop-add a k whole ∙ ap (drop k) e ∙ drop-map (λ (x : Entry V). pos x.c) k es in
      let same =
        table-≡ (suc lo) n (λ i. count_row i es) (λ i. count_row i (drop k es))
          (λ i le. count_row-drop i lo k es (ground arith) cut.inside) in
      let rest =
        offsets-IsSortedCsr cols (suc lo) n (a + k) nnz whole (drop k es)
          (later_rows cols lo n es h) moved (omega (arith, left)) in
      let row =
        row-IsAscending lo cols none (take k es) cut.inside (take-IsStrict k es h.strict)
          (take-All (λ (x : Entry V). lt_ℤ (pos x.c) cols ≡ true) k es h.narrow)
          (unbounded (take k es)) in
      (
        rw (same, first_row cols lo n a whole es h e)
            (ground arith, ground arith, ground arith, row, rest.0),
        ap (λ xs. get_or ((a + k) ∷ accumulate (a + k) xs) n 0) same ∙ rest.1,
      )
