-- ===== src/Spgemm/Host.antt =====
-- The loops of src/ops/spgemm.cpp on the host: the work estimate, the row offsets of C, and the sort
-- of its rows.
use cwapper.Base.{
  ℕ, zero, suc, ◌-◌, ℤ, pos, ◌+ℤ◌, ◌-ℤ◌, Bool, true, false, ◌||◌, List, [], ◌∷◌, ◌++◌, map, length,
  get_or, take, drop, replicate, lt_ℤ, le_ℤ, eq_ℤ, max_ℤ, pos_part, int32_max, to_i32, pattern32,
  pattern64, to_bytes, if◌then◌else◌,
}
use cwapper.Types.{invalid_value, not_supported, IndexType, index_32i}
use cwapper.Exec.{Result, ok, err}
use cwapper.Meta.{slice}

-- a_pref[p] = v
unfoldable pub put_at : ℕ → ℤ → List ℤ → List ℤ
put_at i v [] = []
put_at zero v (x ∷ xs) = v ∷ xs
put_at (suc i) v (x ∷ xs) = x ∷ put_at i v xs

-- The products that an entry of A in column k contributes: the length of row k of B.
unfoldable pub row_length : List ℤ → ℤ → ℤ
row_length b_off k = get_or b_off (suc (pos_part k)) (pos 0) -ℤ get_or b_off (pos_part k) (pos 0)

-- The loop over one row: its columns from position `p` on, the running total and the prefixes.
unfoldable pub row_work : ℤ → List ℤ → ℕ → ℤ → List ℤ → List ℤ → Result (ℤ × List ℤ)
unfolding put_at row_length
row_work b_rows b_off p running pref [] = ok (running, pref)
row_work b_rows b_off p running pref (k ∷ ks) =
    let next =
      row_work b_rows b_off (suc p) (running +ℤ row_length b_off k) (put_at p (to_i32 running) pref)
        ks in
    if lt_ℤ k (pos 0) || le_ℤ b_rows k then err invalid_value else next

-- What the estimate leaves on the host: a total for each row, a prefix for each nonzero, and the
-- largest total.
pub record Estimate : Type 0 where
  pub rw : List ℤ
  pub a_pref : List ℤ
  pub max_work : ℤ

abbrev pub with_row : ℤ → Result Estimate → Result Estimate
with_row total (ok e) = ok (record e { rw = to_i32 total ∷ e.rw })
with_row total (err st) = err st

-- The end of a round: refuse a total beyond an int32, else go on with the next row.
abbrev pub after_row : ℤ → Result (ℤ × List ℤ) → (List ℤ → ℤ → Result Estimate) → Result Estimate
after_row longest (err e) next = err e
after_row longest (ok (total, pref)) next =
    if lt_ℤ (pos int32_max) total
    then err not_supported
    else with_row total (next pref (max_ℤ longest total))

-- The loop over the rows, each from its offset to the next one.
unfoldable pub rows_work : ℤ → List ℤ → List ℤ → List ℤ → ℤ → List ℤ → Result Estimate
unfolding row_work
rows_work b_rows b_off a_col pref longest [] =
    ok (record { rw = []; a_pref = pref; max_work = longest })
rows_work b_rows b_off a_col pref longest (begin ∷ []) =
    ok (record { rw = []; a_pref = pref; max_work = longest })
rows_work b_rows b_off a_col pref longest (begin ∷ end ∷ rest) =
    after_row longest (row_work b_rows b_off (pos_part begin) (pos 0) pref (slice begin end a_col))
      (λ p l. rows_work b_rows b_off a_col p l (end ∷ rest))

-- The host_indptr that compute fills behind its first 0, with (total, max_row) where the running
-- total fits an int32 throughout. The array was assigned zeros: they stay behind an early return.
unfoldable pub row_offsets : ℤ → ℤ → List ℤ → List ℤ × Result (ℤ × ℤ)
row_offsets total longest [] = ([], ok (total, longest))
row_offsets total longest (n ∷ ns) =
    let rest = row_offsets (total +ℤ n) (max_ℤ longest n) ns in
    if lt_ℤ (pos int32_max) (total +ℤ n)
    then (replicate (suc (length ns)) (pos 0), err not_supported)
    else (to_i32 (total +ℤ n) ∷ rest.0, rest.1)

-- if (f != 0), for some f of host_ovf
unfoldable pub any_flag : List ℤ → Bool
any_flag [] = false
any_flag (f ∷ fs) = let rest = any_flag fs in if eq_ℤ f (pos 0) then rest else true

-- int32 and int64 values as they stand in memory.
unfoldable pub bytes_of32 : List ℤ → List ℕ
bytes_of32 [] = []
bytes_of32 (z ∷ zs) = to_bytes 4 (pattern32 z) ++ bytes_of32 zs

unfoldable pub bytes_of64 : List ℤ → List ℕ
bytes_of64 [] = []
bytes_of64 (z ∷ zs) = to_bytes 8 (pattern64 z) ++ bytes_of64 zs

-- The offsets in the width of the offsets type of C: 64 bits for every type but INDEX_32I.
unfoldable pub offset_bytes : IndexType → List ℤ → List ℕ
unfolding bytes_of32 bytes_of64
offset_bytes index_32i indptr = bytes_of32 indptr
offset_bytes _ indptr = bytes_of64 indptr

-- An entry of C: its column and the bytes of its value.
abbrev pub Entry : Type 0
Entry = ℤ × List ℕ

unfoldable pub entries : ℕ → List ℤ → List ℕ → List Entry
entries vsize [] bytes = []
entries vsize (c ∷ cs) bytes = (c, take vsize bytes) ∷ entries vsize cs (drop vsize bytes)

-- std::sort of a row by column. Entries of one column, which the kernel never emits twice in a row,
-- keep their order here; std::sort leaves it open.
unfoldable pub insert_entry : Entry → List Entry → List Entry
insert_entry e [] = e ∷ []
insert_entry e (x ∷ xs) =
    let rest = insert_entry e xs in if le_ℤ (e.0) (x.0) then e ∷ x ∷ xs else x ∷ rest

unfoldable pub sort_row : List Entry → List Entry
unfolding insert_entry
sort_row [] = []
sort_row (e ∷ es) = insert_entry e (sort_row es)

abbrev pub segment : ℤ → ℤ → List Entry → List Entry
segment begin end es = take (pos_part end - pos_part begin) (drop (pos_part begin) es)

-- The rows in order, each sorted. The offsets are those of compute, one more than A has rows: they start
-- at 0 and each row ends where the next one starts. So the loop over the rows of A is one over the
-- offsets, and what it writes at the offset of each row is what it appends here.
unfoldable pub sort_rows : List Entry → List ℤ → List Entry
unfolding sort_row
sort_rows es [] = []
sort_rows es (begin ∷ []) = []
sort_rows es (begin ∷ end ∷ rest) = sort_row (segment begin end es) ++ sort_rows es (end ∷ rest)

abbrev pub columns_of : List Entry → List ℤ
columns_of = map (λ e. e.0)

unfoldable pub values_of : List Entry → List ℕ
values_of [] = []
values_of (e ∷ es) = e.1 ++ values_of es
