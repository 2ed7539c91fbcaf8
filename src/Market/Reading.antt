-- ===== src/Market/Reading.antt =====
-- What ctest/mmio.hpp returns for a file that it accepts: the lines that lead to the arrays.
use cwapper.Base.{
  int32_max, ℕ, ◌*◌, ◌%◌, ◌^◌, ◌≡◌, ◌<◌, ◌⊎◌, inl, inr, refl, sym, subst, arith, ◌==◌, ℤ, pos,
  negsuc, ◌≤ℤ◌, lt_ℤ, Bool, true, false, Bool-cases, List, [], ◌∷◌, Option, none, some, length, All,
  pos_part, pattern64, to_i64, to_i64-lower, if◌then◌else◌,
}
use cwapper.Market.Built.{IsCanonical, build-IsCanonical}
use cwapper.Floats.{Doubles}
use cwapper.Market.{
  Csr, Entry, Outcome, threw, returned, Banner, Scan, scanned, failed, push, read_entries, build,
  finish, read_body, read_dimensions, banner_of, read_csr, with_dimensions, room_for,
}
use cwapper.Market.Text.{starts_with, contains, codes, read_three}
use cwapper.Market.Lines.{Scanned, IsWithin, read_entries-Scanned}

-- A mirror stays within the matrix.
abbrev IsMirrored : Bool → ℤ → ℤ → Type 0
IsMirrored symmetric m n = (symmetric ≡ false) ⊎ (m ≡ n)

module _ (d : Doubles) where
  push-IsWithin :
      (symmetric skew : Bool) (m n : ℤ) (e : Entry d.V) (es : List (Entry d.V))
      → IsMirrored symmetric m n
      → IsWithin m n e
      → All (IsWithin m n) es
      → All (IsWithin m n) (push d symmetric skew e es)
  unfolding push
  push-IsWithin false skew m n e es h w k = (w, k)
  push-IsWithin true skew m n e es (inl h) w k = cc
  push-IsWithin true skew m n e es (inr h) w k = elim (Bool-cases (e.r == e.c)) [
    | inl b ↦ rw (b) (w, k)
    | inr b ↦ rw (b) (
      w,
      (
        (
          subst (λ x. lt_ℤ (pos e.c) x ≡ true) (sym h) w.1,
          subst (λ x. lt_ℤ (pos e.r) x ≡ true) h w.0,
        ),
        k,
      ),
    )
  ]

-- An allocation that succeeds has fewer than 2 ^ 63 bytes, as std::vector documents.
abbrev pub IsBounded : (ℕ → Bool) → Type 0
IsBounded allocates = (n : ℕ) → allocates n ≡ true → n < 9223372036854775808

module _ (d : Doubles) (allocates : ℕ → Bool) (laws : IsBounded allocates) where
  -- What a call that returns has, for a mirror that stays within the matrix.
  abbrev Delivers : Bool → Outcome d.V → Type 0
  Delivers symmetric threw = Unit {0}
  Delivers symmetric (returned c) =
      (c.is_ok ≡ false)
      ⊎ (IsMirrored symmetric c.rows c.cols → c.nnz ≤ℤ pos int32_max → IsCanonical c)

  not_negative :
      (m : ℤ) (size : ℕ)
      → negsuc 9223372036854775807 ≤ℤ m
      → room_for d allocates m size ≡ true
      → m ≡ pos (pos_part m)
  not_negative (pos n) size low h = refl
  not_negative (negsuc k) size low h =
      let last : allocates (4 * pattern64 (negsuc k)) ≡ true = ground arith in
      let small = laws (4 * pattern64 (negsuc k)) last in absurd (omega (arith, small, low))

  finish-Delivers :
      (symmetric : Bool) (m n : ℤ) (scan : Scan d.V)
      → negsuc 9223372036854775807 ≤ℤ m
      → Scanned (λ coo. IsMirrored symmetric m n → All (IsWithin m n) coo) scan
      → Delivers symmetric (finish d allocates m n scan)
  unfolding finish build
  finish-Delivers symmetric m n (failed text) low h = inl refl
  finish-Delivers symmetric m n (scanned coo) low h =
      elim (Bool-cases (room_for d allocates m (length coo))) [
        | inl room ↦
            let whole = not_negative m (length coo) low room in
            rw (room) (
              inr (λ mirror small.
                build-IsCanonical d (pos_part m) n coo
                  (subst (λ x. All (IsWithin x n) coo) whole
                    (h (subst (λ x. IsMirrored symmetric x n) (sym whole) mirror)))
                  (omega (arith, small))))
        | inr none_left ↦ rw (none_left) tt
      ]

  read_body-Delivers :
      (b : Banner) (m n entries : ℤ) (lines : List (List ℕ))
      → negsuc 9223372036854775807 ≤ℤ m
      → Delivers b.symmetric (read_body d allocates b m n entries lines)
  unfolding read_body
  read_body-Delivers b m n entries lines low =
      elim (Bool-cases
        (allocates (16 * ((pattern64 entries * (if b.symmetric then 2 else 1)) % 2 ^ 64)))) [
          | inl room ↦ rw (room) (
              finish-Delivers b.symmetric m n (read_entries d b m n (pos_part entries) lines) low (
                read_entries-Scanned d (λ coo. IsMirrored b.symmetric m n → All (IsWithin m n) coo)
                  b m n (pos_part entries) lines (λ mirror. tt)
                  (λ e es w k mirror.
                    push-IsWithin d b.symmetric b.skew m n e es mirror w (k mirror))))
          | inr none_left ↦ rw (none_left) tt
        ]

  with_dimensions-Delivers :
      (b : Banner) (o : Option (ℤ × ℤ × ℤ)) (lines : List (List ℕ))
      → Delivers b.symmetric (with_dimensions d allocates b o lines)
  with_dimensions-Delivers b none lines = inl refl
  with_dimensions-Delivers b (some (m, n, entries)) lines =
      read_body-Delivers b (to_i64 m) (to_i64 n) (to_i64 entries) lines (to_i64-lower m)

  read_dimensions-Delivers :
      (b : Banner) (lines : List (List ℕ))
      → Delivers b.symmetric (read_dimensions d allocates b lines)
  unfolding read_dimensions
  read_dimensions-Delivers b [] = inl refl
  read_dimensions-Delivers b (line ∷ lines) = elim (Bool-cases (starts_with (codes "%") line)) [
    | inl comment ↦ rw (comment) (read_dimensions-Delivers b lines)
    | inr other ↦ rw (other) (with_dimensions-Delivers b (read_three line) lines)
  ]

  read_csr-Delivers :
      (line : List ℕ) (lines : List (List ℕ))
      → Delivers (banner_of line).symmetric (read_csr d allocates (some (line ∷ lines)))
  unfolding read_csr
  read_csr-Delivers line lines = elim (Bool-cases (contains (codes "coordinate") line)) [
    | inl here ↦ elim (Bool-cases (contains (codes "complex") line)) [
      | inl refused ↦ rw (here, refused) (inl refl)
      | inr plain ↦ rw (here, plain) (read_dimensions-Delivers (banner_of line) lines)
    ]
    | inr missing ↦ rw (missing) (inl refl)
  ]

  -- A file that is read with no error and has at most 2 ^ 31 - 1 entries left gives arrays that fit one
  -- another, in the form that the library's column check accepts: offsets from 0 to the number of
  -- entries, and each row of columns strictly ascending and within the matrix. (The offsets are of
  -- int32_t, and the code does not test the number of entries.) A symmetric file must have a square
  -- matrix, since the mirror of an entry is not tested.
  pub read_csr-IsCanonical :
      (line : List ℕ) (lines : List (List ℕ)) (c : Csr d.V)
      → read_csr d allocates (some (line ∷ lines)) ≡ returned c
      → c.is_ok ≡ true
      → ((banner_of line).symmetric ≡ false) ⊎ (c.rows ≡ c.cols)
      → c.nnz ≤ℤ pos int32_max
      → IsCanonical c
  read_csr-IsCanonical line lines c h accepted mirror small =
      delivered (subst (Delivers (banner_of line).symmetric) h (read_csr-Delivers line lines))
    where
      delivered : Delivers (banner_of line).symmetric (returned c) → IsCanonical c
      delivered (inl bad) = cc
      delivered (inr canonical) = canonical mirror small
