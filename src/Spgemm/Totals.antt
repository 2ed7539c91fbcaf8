-- ===== src/Spgemm/Totals.antt =====
-- The end of flagsparseSpGEMM_compute of src/ops/spgemm.cpp: the offsets and the size of C.
use cwapper.Base.{
  ℕ, ◌+◌, ◌*◌, ◌≡◌, inl, inr, refl, subst, arith, ℤ, pos, ◌+ℤ◌, ◌≤ℤ◌, max_ℤ, Bool-cases, true, List,
  [], ◌∷◌, int32_max, lt_ℤ, to_i32,
}
use cwapper.Descr.{SpMatDescr, SpGemmDescr}
use cwapper.Exec.{Result, ok, err, modify, ◌>>=◌, ◌>>◌}
use cwapper.Exec.Leaves.{Leaves, Leaves-lift, Leaves-past}
use cwapper.Machine.{Machine, State, Op, mat_at, spgemm_at}
use cwapper.Adaptor.{memcpy_h2d, init_once, discover}
use cwapper.Frame.{IsFrame, memcpy_h2d-Keeps}
use cwapper.Spgemm.Host.{bytes_of32, row_offsets}
use cwapper.Spgemm.Plan.{rows_bytes}
use cwapper.Spgemm.Steps.{derive_offsets, set_nnz, change_descr, computed_descr}

abbrev pub last_or : ℤ → List ℤ → ℤ
last_or z [] = z
last_or z (x ∷ xs) = last_or x xs

-- The last offset is the total, as an int32 has it, and the total is within an int32.
Totalled : ℤ → List ℤ → Result (ℤ × ℤ) → Type 0
Totalled z xs (err e) = Unit {0}
Totalled z xs (ok (total, longest)) = (last_or z xs ≡ to_i32 total) × (total ≤ℤ pos int32_max)

row_offsets-Totalled :
    (total longest : ℤ) (ns : List ℤ)
    → total ≤ℤ pos int32_max
    → Totalled (to_i32 total) (row_offsets total longest ns).0 (row_offsets total longest ns).1
unfolding row_offsets Totalled
row_offsets-Totalled total longest [] h = (refl, h)
row_offsets-Totalled total longest (n ∷ ns) h =
    elim (Bool-cases (lt_ℤ (pos int32_max) (total +ℤ n))) [
      | inl over ↦ rw (over) tt
      | inr fits ↦ rw (fits) (row_offsets-Totalled (total +ℤ n) (max_ℤ longest n) ns (ground arith))
    ]

-- What a compute leaves: the row offsets on the host end with the number of entries of C, which an
-- int32 holds, and the scratch is recorded.
pub record IsCounted (scratch : ℕ) (nnz : ℤ) (d : SpGemmDescr) : Type 0 where
  pub computed : d.computed ≡ true
  pub buffer : d.buffer2 ≡ scratch
  pub ends : last_or (pos 0) d.host_indptr ≡ to_i32 nnz
  pub fits : nnz ≤ℤ pos int32_max

abbrev HasOffsets : {Mem : Type 0} → ℕ → List ℤ → State Mem → Type 0
HasOffsets descr xs s = (spgemm_at s descr).host_indptr ≡ xs

HasOffsets-IsFrame : (m : Machine) (p descr : ℕ) (xs : List ℤ) → IsFrame m p (HasOffsets descr xs)
unfolding init_once discover
HasOffsets-IsFrame m p descr xs = record {
  memory = λ v s h. h;
  longest = λ v s h. h;
  offsets = λ b s h. h;
  failure = λ handle text s h. h;
  discovery = λ s h. ground arith;
  launched = λ r agreeing s h. h;
}

module _ (m : Machine) (mat_c descr : ℕ) where
  recorded :
      (buffer : ℕ) (xs : List ℤ) (total longest : ℤ) (t : State m.Mem)
      → (spgemm_at t descr).host_indptr ≡ xs
      → (last_or (pos 0) xs ≡ to_i32 total) × (total ≤ℤ pos int32_max)
      → let u = change_descr m descr (computed_descr m buffer longest) (set_nnz m mat_c total t) in
        IsCounted buffer (mat_at u mat_c).nnz (spgemm_at u descr)
  recorded buffer xs total longest t h e =
      let last : last_or (pos 0) (spgemm_at t descr).host_indptr ≡ to_i32 total = rw (h) e.0 in
      record {
        computed = ground arith;
        buffer = ground arith;
        ends = ground arith;
        fits = ground arith;
      }

  stored :
      (xs : List ℤ) (s : State m.Mem)
      → HasOffsets descr xs (change_descr m descr (λ d. record d { host_indptr = xs }) s)
  stored xs s = ground arith

  -- The writes that end compute.
  abbrev record_totals : ℕ → ℤ × ℤ → Op m (Unit {0})
  record_totals buffer totals =
      modify (set_nnz m mat_c (totals.0))
      >> modify (change_descr m descr (computed_descr m buffer (totals.1)))

  copied-Leaves :
      (buffer dst : ℕ) (bytes : List ℕ) (xs : List ℤ) (totals : ℤ × ℤ) (s : State m.Mem)
      → HasOffsets descr xs s
      → (last_or (pos 0) xs ≡ to_i32 (totals.0)) × (totals.0 ≤ℤ pos int32_max)
      → Leaves
          (λ u. IsCounted buffer (mat_at u mat_c).nnz (spgemm_at u descr))
          (memcpy_h2d m dst bytes >>= λ _. record_totals buffer totals)
          s
  copied-Leaves buffer dst bytes xs totals s h e =
      Leaves-past (HasOffsets descr xs) (memcpy_h2d m dst bytes) (λ _. record_totals buffer totals)
        s (memcpy_h2d-Keeps m mat_c _ (HasOffsets-IsFrame m mat_c descr xs) dst bytes) h
        (λ _ t k. record { at = λ r q. recorded buffer xs (totals.0) (totals.1) t k e })

  totalled :
      (host_nnz : List ℤ) (totals : ℤ × ℤ)
      → (row_offsets (pos 0) (pos 0) host_nnz).1 ≡ ok totals
      → (last_or (pos 0) (pos 0 ∷ (row_offsets (pos 0) (pos 0) host_nnz).0) ≡ to_i32 (totals.0))
        × (totals.0 ≤ℤ pos int32_max)
  unfolding Totalled to_i32
  totalled host_nnz totals e =
      subst (Totalled (pos 0) (row_offsets (pos 0) (pos 0) host_nnz).0) e
        (row_offsets-Totalled (pos 0) (pos 0) host_nnz (ground arith))

  pub derive_offsets-Leaves :
      (a : SpMatDescr) (host_nnz : List ℤ) (buffer : ℕ) (s : State m.Mem)
      → Leaves
          (λ u. IsCounted buffer (mat_at u mat_c).nnz (spgemm_at u descr))
          (derive_offsets m mat_c descr a host_nnz buffer)
          s
  unfolding derive_offsets
  derive_offsets-Leaves a host_nnz buffer s =
      let sums = row_offsets (pos 0) (pos 0) host_nnz in
      let xs = pos 0 ∷ sums.0 in
      let at = buffer + 2 * rows_bytes a.rows in
      let start = change_descr m descr (λ d. record d { host_indptr = xs }) s in
      let rest : ℤ × ℤ → Op m (Unit {0}) =
        λ totals. memcpy_h2d m at (bytes_of32 xs) >>= λ _. record_totals buffer totals in
      record {
        at =
            (Leaves-lift sums.1 rest start (λ totals e.
              copied-Leaves buffer at (bytes_of32 xs) xs totals start (stored xs s)
                (totalled host_nnz totals e))).at;
      }
