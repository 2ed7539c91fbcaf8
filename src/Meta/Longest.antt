-- ===== src/Meta/Longest.antt =====
-- The longest row, and its cache on the descriptor (src/core/csr_meta.cpp: ensure_max_row_nnz).
use cwapper.Base.{
  Bool, ◌||◌, lt_ℤ, ◌==◌, ℕ, suc, ◌*◌, ◌<◌, ℤ, pos, ◌-ℤ◌, ◌≤ℤ◌, max_ℤ, le_ℤ, eq_ℤ, pos_part, List,
  [], ◌∷◌, ◌≡◌, ◌≢◌, refl, ◌∙◌, ◌⊎◌, inl, inr, arith, some, true, false, Option-cases,
}
use cwapper.Types.{index_size}
use cwapper.Descr.{SpMatDescr}
use cwapper.Exec.{ok}
use cwapper.Machine.{Machine, State, mat_at, set_mat}
use cwapper.Adaptor.{memcpy_d2h}
use cwapper.Adaptor.Memory.{memcpy_d2h-copy_out}
use cwapper.Meta.{ints_of, longest_gap, major_extent, ensure_max_row_nnz, read_longest}

-- No entry exceeds the one before it by more than `v`.
abbrev pub GapsBelow : ℤ → List ℤ → Type 0
GapsBelow v [] = Unit {0}
GapsBelow v (a ∷ []) = Unit {0}
GapsBelow v (a ∷ b ∷ rest) = (b -ℤ a ≤ℤ v) × GapsBelow v (b ∷ rest)

-- Some entry exceeds the one before it by `v` exactly.
abbrev pub HasGap : ℤ → List ℤ → Type 0
HasGap v [] = ⊥
HasGap v (a ∷ []) = ⊥
HasGap v (a ∷ b ∷ rest) = (v ≡ b -ℤ a) ⊎ HasGap v (b ∷ rest)

-- `v` is the largest of the row lengths that the offsets give, or 0 if none is larger.
pub record IsLongest (v : ℤ) (offsets : List ℤ) : Type 0 where
  pub nonneg : pos 0 ≤ℤ v
  pub above : GapsBelow v offsets
  pub attained : (v ≡ pos 0) ⊎ HasGap v offsets

le-longest_gap : (acc : ℤ) (xs : List ℤ) → acc ≤ℤ longest_gap acc xs
unfolding longest_gap
le-longest_gap acc [] = omega arith
le-longest_gap acc (a ∷ []) = omega arith
le-longest_gap acc (a ∷ b ∷ rest) = ground (arith, le-longest_gap (max_ℤ acc (b -ℤ a)) (b ∷ rest))

GapsBelow-longest_gap : (acc : ℤ) (xs : List ℤ) → GapsBelow (longest_gap acc xs) xs
unfolding longest_gap
GapsBelow-longest_gap acc [] = tt
GapsBelow-longest_gap acc (a ∷ []) = tt
GapsBelow-longest_gap acc (a ∷ b ∷ rest) = (
  ground (arith, le-longest_gap (max_ℤ acc (b -ℤ a)) (b ∷ rest)),
  GapsBelow-longest_gap (max_ℤ acc (b -ℤ a)) (b ∷ rest),
)

max_ℤ-cases : (a b : ℤ) → (max_ℤ a b ≡ a) ⊎ (max_ℤ a b ≡ b)
max_ℤ-cases a b = ground arith

HasGap-longest_gap :
    (acc : ℤ) (xs : List ℤ) → (longest_gap acc xs ≡ acc) ⊎ HasGap (longest_gap acc xs) xs
unfolding longest_gap
HasGap-longest_gap acc [] = inl refl
HasGap-longest_gap acc (a ∷ []) = inl refl
HasGap-longest_gap acc (a ∷ b ∷ rest) = elim (HasGap-longest_gap (max_ℤ acc (b -ℤ a)) (b ∷ rest)) [
  | inl e ↦ elim (max_ℤ-cases acc (b -ℤ a)) [ inl f ↦ inl (e ∙ f) | inr f ↦ inr (inl (e ∙ f)) ]
  | inr g ↦ inr (inr g)
]

pub longest_gap-IsLongest : (xs : List ℤ) → IsLongest (longest_gap (pos 0) xs) xs
longest_gap-IsLongest xs = record {
  nonneg = le-longest_gap (pos 0) xs;
  above = GapsBelow-longest_gap (pos 0) xs;
  attained = HasGap-longest_gap (pos 0) xs;
}

-- The test of the early return: no rows, or no nonzeros.
abbrev pub is_empty : SpMatDescr → Bool
is_empty d = le_ℤ (major_extent d) (pos 0) || eq_ℤ d.nnz (pos 0)

module _ (m : Machine) (p : ℕ) (s : State m.Mem) (d : SpMatDescr) (bytes : List ℕ) where
  abbrev pub longest_of : ℤ
  longest_of = longest_gap (pos 0) (ints_of d.offsets_type bytes)

  read_longest-longest_of :
      is_empty d ≡ false
      → 0 < index_size d.offsets_type
      → d.offsets ≢ 0
      → m.copy_out d.offsets (suc (pos_part (major_extent d)) * index_size d.offsets_type) s.mem
        ≡ some bytes
      → read_longest m p d s
        ≡ (ok longest_of, set_mat p (record (mat_at s p) { max_row_nnz = longest_of }) s)
  unfolding read_longest
  read_longest-longest_of full width arr read =
      let sized : (index_size d.offsets_type == 0) ≡ false = ground arith in
      let copied = memcpy_d2h-copy_out m d.offsets _ bytes s (grind arith) arr read in
      rw (full, sized, copied) refl

  -- The first call on a matrix with nonzeros, whose offsets the driver reads as `bytes`, returns the
  -- length of the longest row (the longest column for CSC), keeps it on the descriptor and changes
  -- nothing else.
  pub ensure_max_row_nnz-IsLongest :
      p ≢ 0
      → s.mats p ≡ some d
      → lt_ℤ d.max_row_nnz (pos 0) ≡ true
      → is_empty d ≡ false
      → 0 < index_size d.offsets_type
      → d.offsets ≢ 0
      → m.copy_out d.offsets (suc (pos_part (major_extent d)) * index_size d.offsets_type) s.mem
        ≡ some bytes
      → (ensure_max_row_nnz m p s
          ≡ (ok longest_of, set_mat p (record d { max_row_nnz = longest_of }) s))
        × IsLongest longest_of (ints_of d.offsets_type bytes)
  unfolding ensure_max_row_nnz
  ensure_max_row_nnz-IsLongest live here fresh full width arr read =
      let ready : (p == 0) ≡ false = ground arith in
      let stale : le_ℤ (pos 0) d.max_row_nnz ≡ false = ground arith in
      (
        rw (ready, here, stale) ((rw here at (read_longest-longest_of full width arr read))),
        longest_gap-IsLongest (ints_of d.offsets_type bytes),
      )

-- What is read stands on the descriptor.
read_longest_cached :
    (m : Machine) (p : ℕ) (d : SpMatDescr) (s t : State m.Mem) (v : ℤ)
    → read_longest m p d s ≡ (ok v, t)
    → (pos 0 ≤ℤ v) × ((mat_at t p).max_row_nnz ≡ v)
unfolding read_longest memcpy_d2h
read_longest_cached m p d s t v h = elim (Option-cases (m.copy_out d.offsets count s.mem)) [
  | inl failed ↦ ground (arith, le-longest_gap (pos 0) (ints_of d.offsets_type []))
  | inr (bytes, read) ↦ ground (
    arith,
    le-longest_gap (pos 0) (ints_of d.offsets_type []),
    le-longest_gap (pos 0) (ints_of d.offsets_type bytes),
  )
]
  where
    count : ℕ
    count = suc (pos_part (major_extent d)) * index_size d.offsets_type

-- A call that succeeds has left its answer on the descriptor: the next call returns it again,
-- reads nothing from the device and changes nothing.
ensure_max_row_nnz_again :
    (m : Machine) (p : ℕ) (s t : State m.Mem) (v : ℤ)
    → ensure_max_row_nnz m p s ≡ (ok v, t)
    → ensure_max_row_nnz m p t ≡ (ok v, t)
unfolding ensure_max_row_nnz
ensure_max_row_nnz_again m p s t v h = ground (arith, read_longest_cached m p (mat_at s p) s t v)
