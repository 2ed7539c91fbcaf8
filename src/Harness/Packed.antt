-- ===== src/Harness/Packed.antt =====
-- The CSR arrays that the loops of ctest push row by row: a row reads back as it was pushed, and rows
-- of ascending columns make the form that the library checks for, as long as an int32_t holds the
-- number of entries.
use cwapper.Base.{
  int32_max, to_word, to_word-in_range, pos_part, ◌≤◌, ℕ, zero, suc, ◌+◌, ◌-◌, ◌≡◌, ◌<◌, refl, sym,
  ap, subst, ◌∙◌, arith, ℤ, pos, none, List, [], ◌∷◌, ◌++◌, map, map-append, length, length-map,
  length-append, get_or, take, drop, All, take-append, drop-append, drop-add, take-map, drop-map,
}
use cwapper.Meta.{accumulate, slice}
use cwapper.Meta.Sorted.{IsAscending, IsSortedCsr}
use cwapper.Harness.Matrix.{span, zip, row, flatten, pack}

module _ {A : Type 0} where
  -- What stands between two offsets is one row.
  span-flatten :
      (whole : List A) (a i : ℕ) (xss : List (List A))
      → drop a whole ≡ flatten xss
      → i < length xss
      → span
          (get_or (a ∷ accumulate a (map length xss)) i 0)
          (get_or (a ∷ accumulate a (map length xss)) (suc i) 0)
          whole
        ≡ get_or xss i []
  unfolding accumulate
  span-flatten whole a i [] e lt = absurd (omega (arith, lt))
  span-flatten whole a zero (xs ∷ xss) e lt =
      let size : (a + length xs) - a ≡ length xs = ground arith in
      rw (size, e) (take-append (length xs) xs (flatten xss) refl)
  span-flatten whole a (suc i) (xs ∷ xss) e lt =
      let moved : drop (a + length xs) whole ≡ flatten xss =
        drop-add a (length xs) whole
        ∙ ap (drop (length xs)) e
        ∙ drop-append (length xs) xs (flatten xss) refl in
      span-flatten whole (a + length xs) i xss moved (omega (arith, lt))

-- Offsets within an int32_t keep their values in it.
pub map-to_word :
    {A : Type 0} (t : ℕ) (xss : List (List A))
    → t + length (flatten xss) ≤ int32_max
    → map to_word (t ∷ accumulate t (map length xss)) ≡ map pos (t ∷ accumulate t (map length xss))
unfolding accumulate
map-to_word t [] small = ap (λ z. z ∷ []) (to_word-in_range t (omega (arith, small)))
map-to_word t (xs ∷ xss) small =
    let all = length-append xs (flatten xss) in
    ap (λ z. z ∷ map to_word (accumulate t (map length (xs ∷ xss))))
      (to_word-in_range t (omega (arith, small)))
    ∙ ap (λ zs. pos t ∷ zs) (map-to_word (t + length xs) xss (omega (arith, small, all)))

pub get_or-map_pos :
    (xs : List ℕ) (i : ℕ) → pos_part (get_or (map pos xs) i (pos 0)) ≡ get_or xs i 0
get_or-map_pos [] i = refl
get_or-map_pos (x ∷ xs) zero = refl
get_or-map_pos (x ∷ xs) (suc i) = get_or-map_pos xs i

span-map :
    {A B : Type 0} (f : A → B) (b e : ℕ) (xs : List A) → span b e (map f xs) ≡ map f (span b e xs)
span-map f b e xs = ap (take (e - b)) (drop-map f b xs) ∙ take-map f (e - b) (drop b xs)

module _ {V : Type 0} where
  zip-map : (xs : List (ℕ × V)) → zip (map (λ e. e.0) xs) (map (λ e. e.1) xs) ≡ xs
  zip-map [] = refl
  zip-map (x ∷ xs) = ap (λ ys. x ∷ ys) (zip-map xs)

  -- A row that was pushed is read back whole, where an int32_t holds the number of entries.
  pub row-pack :
      (rows cols i : ℕ) (entries : List (List (ℕ × V)))
      → length (flatten entries) ≤ int32_max
      → i < length entries
      → row (pack rows cols entries) i ≡ get_or entries i []
  unfolding row pack
  row-pack rows cols i entries small lt =
      let offsets : List ℕ = 0 ∷ accumulate 0 (map length entries) in
      let words = map-to_word 0 entries (omega (arith, small)) in
      let at : (j : ℕ) → pos_part (get_or (map to_word offsets) j (pos 0)) ≡ get_or offsets j 0 =
        λ j. ap (λ zs. pos_part (get_or zs j (pos 0))) words ∙ get_or-map_pos offsets j in
      let begin = get_or offsets i 0 in
      let end = get_or offsets (suc i) 0 in
      let here = span-flatten (flatten entries) 0 i entries refl lt in
      rw (at i, at (suc i))
        (ap (λ cs. zip cs (span begin end (map (λ e. e.1) (flatten entries))))
            (span-map (λ (e : ℕ × V). e.0) begin end (flatten entries))
          ∙ ap (λ vs. zip (map (λ e. e.0) (span begin end (flatten entries))) vs)
              (span-map (λ (e : ℕ × V). e.1) begin end (flatten entries))
          ∙ zip-map (span begin end (flatten entries))
          ∙ here)

  abbrev pub columns_of : List (ℕ × V) → List ℤ
  columns_of = map (λ e. pos e.0)

  flatten-IsSortedCsr :
      (cols : ℤ) (a nnz : ℕ) (whole : List ℤ) (xss : List (List (ℕ × V)))
      → All (λ xs. IsAscending cols none (columns_of xs)) xss
      → drop a whole ≡ columns_of (flatten xss)
      → nnz ≡ a + length (flatten xss)
      → IsSortedCsr cols (pos nnz) whole (map pos (a ∷ accumulate a (map length xss)))
  unfolding accumulate slice
  flatten-IsSortedCsr cols a nnz whole [] h e size = tt
  flatten-IsSortedCsr cols a nnz whole (xs ∷ xss) h e size =
      let all = length-append xs (flatten xss) in
      let n : (a + length xs) - a ≡ length xs = ground arith in
      let k = length-map (λ (e : ℕ × V). pos e.0) xs in
      let split = e ∙ map-append (λ (e : ℕ × V). pos e.0) xs (flatten xss) in
      let row =
        ap (λ ys. take ((a + length xs) - a) ys) split
        ∙ ap (λ m. take m (columns_of xs ++ columns_of (flatten xss))) n
        ∙ take-append (length xs) (columns_of xs) (columns_of (flatten xss)) k in
      let moved : drop (a + length xs) whole ≡ columns_of (flatten xss) =
        drop-add a (length xs) whole
        ∙ ap (drop (length xs)) split
        ∙ drop-append (length xs) (columns_of xs) (columns_of (flatten xss)) k in
      (
        omega arith,
        omega (arith, size, all),
        omega arith,
        subst (IsAscending cols none) (sym row) h.0,
        flatten-IsSortedCsr cols (a + length xs) nnz whole xss h.1 moved (omega (arith, size, all)),
      )

  -- Rows of ascending columns are packed into the form that the library checks for.
  pub pack-IsSortedCsr :
      (rows cols : ℕ) (entries : List (List (ℕ × V)))
      → length (flatten entries) ≤ int32_max
      → All (λ xs. IsAscending (pos cols) none (columns_of xs)) entries
      → IsSortedCsr
          (pos cols)
          (pos (pack rows cols entries).nnz)
          (map pos (pack rows cols entries).indices)
          (pack rows cols entries).indptr
  unfolding pack
  pack-IsSortedCsr rows cols entries small h =
      let whole = flatten entries in
      let columns = map pos (map (λ (e : ℕ × V). e.0) whole) in
      subst (IsSortedCsr (pos cols) (pos (length whole)) columns)
        (sym (map-to_word 0 entries (omega (arith, small))))
        (flatten-IsSortedCsr (pos cols) 0 (length whole) columns entries h (map-map whole)
          (omega arith))
    where
      map-map : (xs : List (ℕ × V)) → map pos (map (λ (e : ℕ × V). e.0) xs) ≡ columns_of xs
      map-map [] = refl
      map-map (x ∷ xs) = ap (λ ys. pos x.0 ∷ ys) (map-map xs)
