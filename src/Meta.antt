-- ===== src/Meta.antt =====
-- src/core/csr_meta.cpp: facts about a matrix that are had by reading its index arrays back.
pub mod Build
pub mod Columns
pub mod Longest
pub mod Offsets
pub mod Sorted
use cwapper.Base.{
  ℕ, zero, suc, ◌+◌, ◌-◌, ◌*◌, ℤ, pos, negsuc, ◌-ℤ◌, Bool, true, false, not, ◌&&◌, ◌||◌, List, [],
  ◌∷◌, ◌++◌, map, Option, none, some, length, replicate, take, drop, ◌==◌, lt_ℤ, le_ℤ, eq_ℤ, max_ℤ,
  pos_part, int32_max, signed32, signed64, of_bytes, to_bytes, if◌then◌else◌,
}
use cwapper.Types.{invalid_value, not_supported, IndexType, index_32i, index_size, is_csc}
use cwapper.Descr.{SpMatDescr}
use cwapper.Exec.{Result, ok, err, pure, lift, gets, modify, refuse, ◌>>=◌, ◌>>◌}
use cwapper.Machine.{Machine, State, Op, mat_at, set_mat}
use cwapper.Adaptor.{memcpy_h2d, memcpy_d2h}

-- reinterpret_cast<const std::int32_t*> and <const std::int64_t*> of a host buffer, on a host whose
-- words stand low byte first.
unfoldable pub ints32 : List ℕ → List ℤ
ints32 (a ∷ b ∷ c ∷ d ∷ rest) = signed32 (of_bytes (a ∷ b ∷ c ∷ d ∷ [])) ∷ ints32 rest
ints32 _ = []

unfoldable pub ints64 : List ℕ → List ℤ
ints64 (a ∷ b ∷ c ∷ d ∷ e ∷ f ∷ g ∷ h ∷ rest) =
    signed64 (of_bytes (a ∷ b ∷ c ∷ d ∷ e ∷ f ∷ g ∷ h ∷ [])) ∷ ints64 rest
ints64 _ = []

-- The code reads 32-bit words for INDEX_32I and 64-bit words for every other type.
unfoldable pub ints_of : IndexType → List ℕ → List ℤ
unfolding ints32 ints64
ints_of index_32i bytes = ints32 bytes
ints_of _ bytes = ints64 bytes

-- for (r = 0; r < n; ++r) longest = max(longest, p[r + 1] - p[r]), over the n + 1 entries of p.
unfoldable pub longest_gap : ℤ → List ℤ → ℤ
longest_gap acc [] = acc
longest_gap acc (a ∷ []) = acc
longest_gap acc (a ∷ b ∷ rest) = longest_gap (max_ℤ acc (b -ℤ a)) (b ∷ rest)

-- ++offsets[r]
unfoldable pub increment : ℕ → List ℕ → List ℕ
increment i [] = []
increment zero (x ∷ xs) = suc x ∷ xs
increment (suc i) (x ∷ xs) = x ∷ increment i xs

-- The first loop of build_coo_row_offsets: refuse an index out of range or below its predecessor,
-- and count each row one place up.
unfoldable pub count_rows : ℤ → ℤ → List ℤ → List ℕ → Result (List ℕ)
unfolding increment
count_rows rows previous [] offsets = ok offsets
count_rows rows previous (r ∷ rest) offsets =
    let next = count_rows rows r rest (increment (suc (pos_part r)) offsets) in
    if lt_ℤ r (pos 0) || le_ℤ rows r
    then err invalid_value
    else if lt_ℤ r previous
    then err invalid_value
    else next

-- The second: offsets[r + 1] += offsets[r], from left to right.
unfoldable pub accumulate : ℕ → List ℕ → List ℕ
accumulate total [] = []
accumulate total (x ∷ xs) = (total + x) ∷ accumulate (total + x) xs

-- The columns from `begin` up to `end`, each in range and above the one before it in its row.
unfoldable pub scan_row : ℤ → Option ℤ → List ℤ → Result (Unit {0})
scan_row cols previous [] = ok tt
scan_row cols none (c ∷ rest) =
    let next = scan_row cols (some c) rest in
    if lt_ℤ c (pos 0) || le_ℤ cols c then err invalid_value else next
scan_row cols (some q) (c ∷ rest) =
    let next = scan_row cols (some c) rest in
    if lt_ℤ c (pos 0) || le_ℤ cols c
    then err invalid_value
    else if le_ℤ c q
    then err invalid_value
    else next

unfoldable pub slice : ℤ → ℤ → List ℤ → List ℤ
slice begin end xs = take (pos_part end - pos_part begin) (drop (pos_part begin) xs)

-- The loop over the rows, each from its offset to the next one.
unfoldable pub scan_rows : ℤ → ℤ → List ℤ → List ℤ → Result (Unit {0})
scan_rows cols nnz columns [] = ok tt
scan_rows cols nnz columns (begin ∷ []) = ok tt
scan_rows cols nnz columns (begin ∷ end ∷ rest) =
    let next = scan_rows cols nnz columns (end ∷ rest) in
    if lt_ℤ begin (pos 0) || lt_ℤ nnz end || lt_ℤ end begin
    then err invalid_value
    else elim (scan_row cols none (slice begin end columns)) [ ok _ ↦ next | err e ↦ err e ]

-- The extent that the offsets array runs over.
unfoldable pub major_extent : SpMatDescr → ℤ
major_extent d = if is_csc d.format then d.cols else d.rows

-- The int32 offsets as they stand in memory.
unfoldable pub words32 : List ℕ → List ℕ
words32 [] = []
words32 (n ∷ ns) = to_bytes 4 n ++ words32 ns

module _ (m : Machine) where
  abbrev pub set_max_row_nnz : ℕ → ℤ → State m.Mem → State m.Mem
  set_max_row_nnz p v s = set_mat p (record (mat_at s p) { max_row_nnz = v }) s

  abbrev pub set_coo_offsets_buffer : ℕ → ℕ → State m.Mem → State m.Mem
  set_coo_offsets_buffer p b s = set_mat p (record (mat_at s p) { coo_offsets_buffer = b }) s

  unfoldable pub read_longest : ℕ → SpMatDescr → Op m ℤ
  read_longest p d =
      if le_ℤ (major_extent d) (pos 0) || eq_ℤ d.nnz (pos 0)
      then (do modify (set_max_row_nnz p (pos 0)); pure (pos 0))
      else do
        refuse (index_size d.offsets_type == 0) not_supported
        bytes ← memcpy_d2h m d.offsets (suc (pos_part (major_extent d)) * index_size d.offsets_type)
        let longest = longest_gap (pos 0) (ints_of d.offsets_type bytes)
        modify (set_max_row_nnz p longest)
        pure longest

  unfoldable pub ensure_max_row_nnz : ℕ → Op m ℤ
  ensure_max_row_nnz p = do
    refuse (p == 0) invalid_value
    d ← gets (λ s. mat_at s p)
    if le_ℤ (pos 0) d.max_row_nnz then pure d.max_row_nnz else read_longest p d

  -- The host's offsets, with max_row_nnz set from them.
  unfoldable pub coo_offsets : ℕ → SpMatDescr → Op m (List ℕ)
  coo_offsets p d =
      let zeros = replicate (suc (pos_part d.rows)) 0 in
      if lt_ℤ (pos 0) d.nnz
      then (do
        refuse (index_size d.indices_type == 0) not_supported
        refuse (lt_ℤ (pos int32_max) d.nnz) not_supported
        bytes ← memcpy_d2h m d.row_ind (pos_part d.nnz * index_size d.indices_type)
        counts ← lift (count_rows d.rows (pos 0) (ints_of d.indices_type bytes) zeros)
        let offsets = accumulate 0 counts
        modify (set_max_row_nnz p (longest_gap (pos 0) (map pos offsets)))
        pure offsets)
      else (do modify (set_max_row_nnz p (pos 0)); pure zeros)

  unfoldable pub build_coo_row_offsets : ℕ → ℕ → Op m (Unit {0})
  build_coo_row_offsets p buffer = do
    refuse (p == 0 || buffer == 0) invalid_value
    d ← gets (λ s. mat_at s p)
    refuse (lt_ℤ d.rows (pos 0)) invalid_value
    offsets ← coo_offsets p d
    memcpy_h2d m buffer (words32 offsets)
    modify (set_coo_offsets_buffer p buffer)

  -- The callers pass the address of a local, which is not null.
  unfoldable pub check_csr_columns_sorted : SpMatDescr → Op m (Unit {0})
  check_csr_columns_sorted d = if le_ℤ d.rows (pos 0) || eq_ℤ d.nnz (pos 0) then pure tt else do
    refuse (index_size d.offsets_type == 0 || index_size d.indices_type == 0) not_supported
    off ← memcpy_d2h m d.offsets (suc (pos_part d.rows) * index_size d.offsets_type)
    idx ← memcpy_d2h m d.indices (pos_part d.nnz * index_size d.indices_type)
    lift (scan_rows d.cols d.nnz (ints_of d.indices_type idx) (ints_of d.offsets_type off))
