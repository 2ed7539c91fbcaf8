-- ===== src/Harness/Expanded.antt =====
-- The row indices that coo_row_indices_of (ctest/common.cpp) gives a CSR matrix, and the offsets that
-- the library builds from row indices (src/core/csr_meta.cpp).
use cwapper.Base.{
  int32_max, to_word-in_range, pos_part, ◌-ℤ◌, ℕ, zero, suc, ◌+◌, ◌-◌, ◌≡◌, ◌≤◌, ◌<◌, refl, sym, ap,
  ◌∙◌, arith, pos, List, [], ◌∷◌, ◌++◌, map, length, length-replicate, get_or, get_or_ext,
  replicate, inl, inr, Bool-cases, ltb, if◌then◌else◌,
}
use cwapper.Exec.{ok}
use cwapper.Meta.{count_rows, accumulate}
use cwapper.Meta.Offsets.{
  count_below, IsRowSorted, IsRowSorted-count_rows, get_or-accumulate-count_rows, length-count_rows,
  length-accumulate, sum_to, get_or-accumulate,
}
use cwapper.Harness.Matrix.{expand_rows}

-- The offsets of rows of these lengths.
abbrev pub offsets : ℕ → List ℕ → List ℕ
offsets t sizes = t ∷ accumulate t sizes

-- The row of each entry, for rows of these lengths from row `r` on.
abbrev rows_of : ℕ → List ℕ → List ℕ
rows_of r [] = []
rows_of r (k ∷ ks) = replicate k r ++ rows_of (suc r) ks

replicate-map :
    (k r : ℕ) (xs : List ℕ) → replicate k (pos r) ++ map pos xs ≡ map pos (replicate k r ++ xs)
replicate-map zero r xs = refl
replicate-map (suc k) r xs = ap (λ zs. pos r ∷ zs) (replicate-map k r xs)

-- Where an int32_t holds the rows, the loop writes them out.
expand_rows-rows_of :
    (r t : ℕ) (sizes : List ℕ)
    → r + length sizes ≤ suc int32_max
    → expand_rows r (map pos (offsets t sizes)) ≡ map pos (rows_of r sizes)
unfolding expand_rows accumulate
expand_rows-rows_of r t [] small = refl
expand_rows-rows_of r t (k ∷ ks) small =
    let many : pos_part (pos (t + k) -ℤ pos t) ≡ k = unfold ◌-ℤ◌ in ground arith in
    rw
      (
        many,
        to_word-in_range r (omega (arith, small)),
        expand_rows-rows_of (suc r) (t + k) ks (omega (arith, small)),
      )
      (replicate-map k r (rows_of (suc r) ks))

count_below-replicate :
    (i k r : ℕ) (xs : List ℕ)
    → count_below i (map pos (replicate k r ++ xs))
      ≡ (if ltb r i then k else 0) + count_below i (map pos xs)
count_below-replicate i zero r xs = ground arith
count_below-replicate i (suc k) r xs = ground (arith, count_below-replicate i k r xs)

sum_to-none : (n : ℕ) → sum_to n [] ≡ 0
sum_to-none zero = refl
sum_to-none (suc n) = refl

sum_to-from :
    (i r k : ℕ) (ks : List ℕ)
    → (if ltb r i then k else 0) + sum_to (i - suc r) ks ≡ sum_to (i - r) (k ∷ ks)
sum_to-from i r k ks = elim (Bool-cases (ltb r i)) [
  | inl e ↦ let above : i - r ≡ suc (i - suc r) = ground arith in rw (e, above) refl
  | inr e ↦
      let none_left : i - r ≡ 0 = ground arith in
      let none_after : i - suc r ≡ 0 = ground arith in rw (e, none_left, none_after) refl
]

count_below-rows_of :
    (i r : ℕ) (ks : List ℕ) → count_below i (map pos (rows_of r ks)) ≡ sum_to (i - r) ks
count_below-rows_of i r [] = sym (sum_to-none (i - r))
count_below-rows_of i r (k ∷ ks) =
    count_below-replicate i k r (rows_of (suc r) ks)
    ∙ ap (λ n. (if ltb r i then k else 0) + n) (count_below-rows_of i (suc r) ks)
    ∙ sum_to-from i r k ks

repeated-IsRowSorted :
    (n p k r : ℕ) (xs : List ℕ)
    → ((q : ℕ) → q ≤ r → IsRowSorted (pos n) (pos q) (map pos xs))
    → r < n
    → p ≤ r
    → IsRowSorted (pos n) (pos p) (map pos (replicate k r ++ xs))
repeated-IsRowSorted n p zero r xs h lt le = h p le
repeated-IsRowSorted n p (suc k) r xs h lt le =
    (ground arith, ground arith, ground arith, repeated-IsRowSorted n r k r xs h lt (ground arith))

rows_of-IsRowSorted :
    (n r : ℕ) (ks : List ℕ) (p : ℕ)
    → r + length ks ≤ n
    → p ≤ r
    → IsRowSorted (pos n) (pos p) (map pos (rows_of r ks))
rows_of-IsRowSorted n r [] p h le = tt
rows_of-IsRowSorted n r (k ∷ ks) p h le =
    repeated-IsRowSorted n p k r (rows_of (suc r) ks)
      (λ q lq. rows_of-IsRowSorted n (suc r) ks q (omega arith) (omega arith)) (omega arith) le

-- The rows of a CSR matrix of at most 2 ^ 31 rows, written out one index for each entry, pass the
-- library's test of row indices, and the offsets that it builds from them are those of the CSR matrix.
pub count_rows-expand_rows :
    (sizes : List ℕ)
    → length sizes ≤ suc int32_max
    → (counts : List ℕ) × (count_rows
          (pos (length sizes))
          (pos 0)
          (expand_rows 0 (map pos (offsets 0 sizes)))
          (replicate (suc (length sizes)) 0)
        ≡ ok counts)
      × (accumulate 0 counts ≡ offsets 0 sizes)
count_rows-expand_rows sizes small =
    let n = length sizes in
    let rs = map pos (rows_of 0 sizes) in
    let written = expand_rows-rows_of 0 0 sizes (omega (arith, small)) in
    let (counts, e) =
      IsRowSorted-count_rows (pos n) (pos 0) rs (replicate (suc n) 0)
        (rows_of-IsRowSorted n 0 sizes 0 (omega arith) (omega arith)) in
    let size = length-count_rows (pos n) (pos 0) rs (replicate (suc n) 0) counts e in
    let zeros = length-replicate {A = ℕ} (suc n) 0 in
    let built = length-accumulate 0 counts in
    let given = length-accumulate 0 sizes in
    (
      counts,
      ap (λ zs. count_rows (pos n) (pos 0) zs (replicate (suc n) 0)) written ∙ e,
      get_or_ext 0 (accumulate 0 counts) (offsets 0 sizes)
          (omega (arith, size, zeros, built, given))
          (λ i lt.
            get_or-accumulate-count_rows n rs counts i e (omega (arith, size, zeros, built, lt))
            ∙ count_below-rows_of i 0 sizes
            ∙ offset i sizes (omega (arith, size, zeros, built, lt))),
    )
  where
    offset :
        (i : ℕ) (sizes : List ℕ)
        → i ≤ length sizes
        → sum_to (i - 0) sizes ≡ get_or (offsets 0 sizes) i 0
    offset zero sizes le = refl
    offset (suc i) sizes le =
        let e : suc i - 0 ≡ suc i = ground arith in
        ap (λ n. sum_to n sizes) e ∙ omega (arith, get_or-accumulate 0 sizes i le)
