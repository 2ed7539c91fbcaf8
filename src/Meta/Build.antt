-- ===== src/Meta/Build.antt =====
-- build_coo_row_offsets (src/core/csr_meta.cpp) as a whole: what it refuses, and what it leaves in
-- the caller's buffer and on the descriptor.
use cwapper.Base.{
  ℕ, suc, ◌*◌, ◌≤◌, ◌<◌, ℤ, pos, negsuc, lt_ℤ, List, [], ◌∷◌, map, ◌≡◌, ◌≢◌, refl, arith, some,
  length, get_or, replicate, length-replicate, pos_part, int32_max, ◌==◌, ◌||◌, true, false, inl,
  inr, All,
}
use cwapper.Types.{index_size, invalid_value}
use cwapper.Descr.{SpMatDescr}
use cwapper.Exec.{Result, ok, err, modify, ◌>>◌}
use cwapper.Exec.Steps.{>>=-eq-ok}
use cwapper.Machine.{Machine, State, mat_at, set_mat}
use cwapper.Machine.Memory.{IsMemory}
use cwapper.Adaptor.{memcpy_h2d, memcpy_d2h}
use cwapper.Adaptor.Memory.{memcpy_d2h-copy_out, memcpy_d2h-memcpy_h2d}
use cwapper.Meta.{
  ints_of, ints32, words32, longest_gap, count_rows, accumulate, coo_offsets, build_coo_row_offsets,
  set_coo_offsets_buffer,
}
use cwapper.Meta.Offsets.{
  IsRowSorted, count_below, count_rows-cases, count_rows-IsRowSorted, get_or-accumulate-count_rows,
  length-count_rows, length-accumulate,
}

-- Offsets that fit an int32 are read from memory as they were written.
pub ints32-words32 : (xs : List ℕ) → All (λ x. x ≤ int32_max) xs → ints32 (words32 xs) ≡ map pos xs
unfolding ints32 words32
ints32-words32 [] h = refl
ints32-words32 (x ∷ xs) h = ground (arith, ints32-words32 xs)

counted_at_pos :
    (z : ℤ) (rs : List ℤ) (offsets counts : List ℕ)
    → lt_ℤ z (pos 0) ≡ false
    → count_rows z (pos 0) rs offsets ≡ ok counts
    → count_rows (pos (pos_part z)) (pos 0) rs offsets ≡ ok counts
counted_at_pos (pos n) rs offsets counts nonneg e = e
counted_at_pos (negsuc n) rs offsets counts nonneg e = absurd (ground arith)

-- The last two statements: copy the offsets into the buffer, and note the buffer.
upload_written :
    (m : Machine) (laws : IsMemory m) (p buffer : ℕ) (words : List ℕ) (s t : State m.Mem)
    → (memcpy_h2d m buffer words >> modify (set_coo_offsets_buffer m p buffer)) s ≡ (ok tt, t)
    → ((mat_at t p).coo_offsets_buffer ≡ buffer)
      × (memcpy_d2h m buffer (length words) t ≡ (ok words, t))
upload_written m laws p buffer words s t h =
    let noted = set_coo_offsets_buffer m p buffer in
    let (_, copied, rest) = >>=-eq-ok (memcpy_h2d m buffer words) (λ _. modify noted) s t tt h in
    let back =
      memcpy_d2h-memcpy_h2d m laws buffer words s (memcpy_h2d m buffer words s).1 (ground arith) in
    (ground arith, unfold memcpy_d2h in ground arith)

-- A call on a live COO matrix with nonzeros whose row indices the driver can read.
pub record IsReadable (m : Machine) (p buffer : ℕ) (s : State m.Mem) (d : SpMatDescr)
    (bytes : List ℕ) : Type 0 where
  pub live : p ≢ 0
  pub target : buffer ≢ 0
  pub here : s.mats p ≡ some d
  pub not_negative : lt_ℤ d.rows (pos 0) ≡ false
  pub some_nonzeros : lt_ℤ (pos 0) d.nnz ≡ true
  pub in_int32 : lt_ℤ (pos int32_max) d.nnz ≡ false
  pub width : 0 < index_size d.indices_type
  pub array : d.row_ind ≢ 0
  pub read : m.copy_out d.row_ind (pos_part d.nnz * index_size d.indices_type) s.mem ≡ some bytes

module _ (m : Machine) (p buffer : ℕ) (s : State m.Mem) (d : SpMatDescr) (bytes : List ℕ)
    (call : IsReadable m p buffer s d bytes) where
  rows_read : List ℤ
  rows_read = ints_of d.indices_type bytes

  nonzeros_positive : 0 < pos_part d.nnz * index_size d.indices_type
  nonzeros_positive =
      let many : 0 < pos_part d.nnz = let h = call.some_nonzeros in ground arith in
      let wide = call.width in grind arith

  zeros : List ℕ
  zeros = replicate (suc (pos_part d.rows)) 0

  abbrev counted : Result (List ℕ)
  counted = count_rows d.rows (pos 0) rows_read zeros

  coo_offsets-counted :
      (counts : List ℕ)
      → counted ≡ ok counts
      → coo_offsets m p d s ≡ (
        ok (accumulate 0 counts),
        set_mat p
            (record (mat_at s p) {
              max_row_nnz = longest_gap (pos 0) (map pos (accumulate 0 counts));
            })
            s,
      )
  unfolding coo_offsets rows_read zeros
  coo_offsets-counted counts e =
      let sized : (index_size d.indices_type == 0) ≡ false = let h = call.width in ground arith in
      let copied =
        memcpy_d2h-copy_out m d.row_ind _ bytes s nonzeros_positive call.array call.read in
      rw (call.some_nonzeros, sized, call.in_int32, copied, e) refl

  coo_offsets-refused : counted ≡ err invalid_value → coo_offsets m p d s ≡ (err invalid_value, s)
  unfolding coo_offsets rows_read zeros
  coo_offsets-refused e =
      let sized : (index_size d.indices_type == 0) ≡ false = let h = call.width in ground arith in
      let copied =
        memcpy_d2h-copy_out m d.row_ind _ bytes s nonzeros_positive call.array call.read in
      rw (call.some_nonzeros, sized, call.in_int32, copied, e) refl

  addressed : (p == 0 || buffer == 0) ≡ false
  addressed = let a = call.live in let b = call.target in ground arith

  sized :
      (counts : List ℕ) → counted ≡ ok counts → length (accumulate 0 counts) ≡ suc (pos_part d.rows)
  unfolding zeros
  sized counts e = omega (
    arith,
    length-accumulate 0 counts,
    length-count_rows d.rows (pos 0) rows_read (replicate (suc (pos_part d.rows)) 0) counts e,
    length-replicate {A = ℕ} (suc (pos_part d.rows)) 0,
  )

  -- On a COO matrix with nonzeros whose row indices the driver can read (IsReadable): unless the row indices are in range and sorted, the call returns INVALID_VALUE and changes
  -- nothing.
  pub build_coo_row_offsets_unsorted :
      ¬ IsRowSorted d.rows (pos 0) (ints_of d.indices_type bytes)
      → build_coo_row_offsets m p buffer s ≡ (err invalid_value, s)
  unfolding build_coo_row_offsets rows_read
  build_coo_row_offsets_unsorted unsorted = elim (count_rows-cases d.rows (pos 0) rows_read zeros) [
    | inl refused ↦ rw (addressed, call.here, call.not_negative, coo_offsets-refused refused) refl
    | inr (counts, e) ↦
        absurd (unsorted (count_rows-IsRowSorted d.rows (pos 0) rows_read zeros counts e))
  ]

  -- On a COO matrix with nonzeros whose row indices the driver can read (IsReadable), and a driver
  -- whose copies behave as memory (IsMemory): a call that succeeds found the row indices in range and sorted. It leaves in the buffer, as
  -- int32 words, n + 1 offsets for n rows, of which entry i is the number of nonzeros in the rows
  -- before row i, and notes on the descriptor which buffer that is.
  pub build_coo_row_offsets-count_below :
      IsMemory m
      → (t : State m.Mem) → build_coo_row_offsets m p buffer s ≡ (ok tt, t)
      → IsRowSorted d.rows (pos 0) (ints_of d.indices_type bytes)
        × ((mat_at t p).coo_offsets_buffer ≡ buffer)
        × ((offsets : List ℕ) × (length offsets ≡ suc (pos_part d.rows))
            × ((i : ℕ)
                → i ≤ pos_part d.rows
                → get_or offsets i 0 ≡ count_below i (ints_of d.indices_type bytes))
            × (memcpy_d2h m buffer (length (words32 offsets)) t ≡ (ok (words32 offsets), t)))
  unfolding build_coo_row_offsets rows_read zeros
  build_coo_row_offsets-count_below laws t h =
      elim (count_rows-cases d.rows (pos 0) rows_read zeros) [
        | inl refused ↦
            let got =
              (rw (addressed, call.here, call.not_negative, coo_offsets-refused refused) at h) in
            cc got
        | inr (counts, e) ↦
            let got =
              (rw (addressed, call.here, call.not_negative, coo_offsets-counted counts e) at h) in
            let at_pos = counted_at_pos d.rows rows_read zeros counts call.not_negative e in
            (
              count_rows-IsRowSorted d.rows (pos 0) rows_read zeros counts e,
              (upload_written m laws p buffer _ _ t got).0,
              (
                accumulate 0 counts,
                sized counts e,
                λ i le. get_or-accumulate-count_rows (pos_part d.rows) rows_read counts i at_pos le,
                (upload_written m laws p buffer _ _ t got).1,
              ),
            )
      ]
