-- ===== src/Market/Built.antt =====
-- The arrays that ctest/mmio.hpp builds from the sorted entries.
use cwapper.Base.{
  length-table, int32_max, to_word-in_range, to_word, ℕ, zero, suc, ◌+◌, ◌≡◌, ◌≤◌, ◌<◌, refl, sym,
  ap, ◌∙◌, subst, arith, ℤ, pos, ◌≤ℤ◌, lt_ℤ, true, List, [], ◌∷◌, map, length, length-map, get_or,
  replicate, All, pos_part,
}
use cwapper.Floats.{Doubles}
use cwapper.Meta.{accumulate}
use cwapper.Meta.Offsets.{length-accumulate}
use cwapper.Meta.Sorted.{IsSortedCsr}
use cwapper.Market.{Csr, Entry, merge, sort_entries, tally, build}
use cwapper.Market.Lines.{IsWithin}
use cwapper.Market.Order.{sort_entries-All, sort_entries-IsSorted, merge-All, merge-IsStrict}
use cwapper.Market.Rows.{columns, count_row, tally-count_row}
use cwapper.Market.Canonical.{AreRows, offsets-IsSortedCsr}

-- The arrays fit one another: the offsets go from 0 to the number of entries, and each row of
-- columns is strictly ascending and within the matrix.
pub record IsCanonical {V : Type 0} (c : Csr V) : Type 0 where
  pub natural : pos 0 ≤ℤ c.rows
  pub sized : length c.indptr ≡ suc (pos_part c.rows)
  pub counted : c.nnz ≡ pos (length c.indices)
  pub paired : length c.values ≡ length c.indices
  pub start : get_or c.indptr 0 (pos 1) ≡ pos 0
  pub stop : get_or c.indptr (pos_part c.rows) (pos 0) ≡ pos (length c.indices)
  pub sorted : IsSortedCsr c.cols c.nnz (map pos c.indices) c.indptr

columns-map :
    {V : Type 0} (es : List (Entry V)) → columns es ≡ map pos (map (λ (e : Entry V). e.c) es)
columns-map [] = refl
columns-map (e ∷ es) = ap (λ xs. pos e.c ∷ xs) (columns-map es)

-- Offsets that do not pass a number of entries within an int32_t keep their values in it.
words_of_sorted :
    (cols : ℤ) (whole : List ℤ) (nnz b : ℕ) (xs : List ℕ)
    → nnz ≤ int32_max
    → b ≤ nnz
    → IsSortedCsr cols (pos nnz) whole (map pos (b ∷ xs))
    → map to_word (b ∷ xs) ≡ map pos (b ∷ xs)
words_of_sorted cols whole nnz b [] small low h =
    ap (λ z. z ∷ []) (to_word-in_range b (ground arith))
words_of_sorted cols whole nnz b (e ∷ xs) small low h =
    let within = h.1 in
    ap (λ z. z ∷ map to_word (e ∷ xs)) (to_word-in_range b (ground arith))
    ∙ ap (λ zs. pos b ∷ zs) (words_of_sorted cols whole nnz e xs small (ground arith) h.4)

get_or_words : (xs : List ℕ) (i : ℕ) → get_or (map pos xs) i (pos 0) ≡ pos (get_or xs i 0)
get_or_words [] i = refl
get_or_words (x ∷ xs) zero = refl
get_or_words (x ∷ xs) (suc i) = get_or_words xs i

module _ (d : Doubles) where
  kept_rows :
      (rows : ℕ) (cols : ℤ) (coo : List (Entry d.V))
      → All (IsWithin (pos rows) cols) coo
      → AreRows cols 0 rows (merge d (sort_entries coo))
  kept_rows rows cols coo h =
      let within =
        merge-All d (λ r c. (lt_ℤ (pos r) (pos rows) ≡ true) × (lt_ℤ (pos c) cols ≡ true))
          (sort_entries coo) (sort_entries-All (IsWithin (pos rows) cols) coo h) in
      record {
        strict = merge-IsStrict d (sort_entries coo) (sort_entries-IsSorted coo);
        start = from_zero (merge d (sort_entries coo));
        stop = stops (merge d (sort_entries coo)) within;
        narrow = narrows (merge d (sort_entries coo)) within;
      }
    where
      from_zero : (es : List (Entry d.V)) → All (λ (x : Entry d.V). 0 ≤ x.r) es
      from_zero [] = tt
      from_zero (x ∷ xs) = (ground arith, from_zero xs)

      stops :
          (es : List (Entry d.V))
          → All (IsWithin (pos rows) cols) es
          → All (λ (x : Entry d.V). x.r < 0 + rows) es
      stops [] k = tt
      stops (x ∷ xs) k = (let first = k.0.0 in ground arith, stops xs k.1)

      narrows :
          (es : List (Entry d.V))
          → All (IsWithin (pos rows) cols) es
          → All (λ (x : Entry d.V). lt_ℤ (pos x.c) cols ≡ true) es
      narrows [] k = tt
      narrows (x ∷ xs) k = (k.0.1, narrows xs k.1)

  -- Entries within the matrix, so many that an int32_t holds their number, give arrays that fit.
  pub build-IsCanonical :
      (rows : ℕ) (cols : ℤ) (coo : List (Entry d.V))
      → All (IsWithin (pos rows) cols) coo
      → length (merge d (sort_entries coo)) ≤ int32_max
      → IsCanonical (build d rows cols coo)
  unfolding build
  build-IsCanonical rows cols coo h small =
      let kept = merge d (sort_entries coo) in
      let rows_of = tally-count_row rows kept in
      let offsets = ap (λ xs. 0 ∷ accumulate 0 xs) rows_of in
      let whole = columns-map kept in
      let found =
        offsets-IsSortedCsr cols 0 rows 0 (length kept) (columns kept) kept
          (kept_rows rows cols coo h) refl (ground arith) in
      let many = length-map (λ (e : Entry d.V). e.c) kept in
      let sums = 0 ∷ accumulate 0 (tally (replicate rows 0) kept) in
      let sorted : IsSortedCsr cols (pos (length kept))
          (map pos (map (λ (e : Entry d.V). e.c) kept)) (map pos sums) =
        subst (λ xs. IsSortedCsr cols (pos (length kept)) xs (map pos sums)) whole
          (subst (λ xs. IsSortedCsr cols (pos (length kept)) (columns kept) (map pos xs))
            (sym offsets) found.0) in
      let words =
        words_of_sorted cols (map pos (map (λ (e : Entry d.V). e.c) kept)) (length kept) 0
          (accumulate 0 (tally (replicate rows 0) kept)) small (ground arith) sorted in
      let last : get_or sums rows 0 ≡ length kept = ap (λ xs. get_or xs rows 0) offsets ∙ found.1 in
      record {
        natural = ground arith;
        sized =
            length-map to_word sums
            ∙ ap suc (
                length-accumulate 0 (tally (replicate rows 0) kept)
                ∙ ap length rows_of
                ∙ length-table 0 rows (λ i. count_row i kept));
        counted = ap pos (sym many);
        paired = length-map (λ (e : Entry d.V). e.v) kept ∙ sym many;
        start = ap (λ zs. get_or zs 0 (pos 1)) words;
        stop =
            ap (λ zs. get_or zs rows (pos 0)) words
            ∙ get_or_words sums rows
            ∙ ap pos (last ∙ sym many);
        sorted =
            subst
              (IsSortedCsr cols (pos (length kept)) (map pos (map (λ (e : Entry d.V). e.c) kept)))
              (sym words) sorted;
      }
