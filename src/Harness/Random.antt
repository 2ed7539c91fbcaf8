-- ===== src/Harness/Random.antt =====
-- random_csr and random_triangular of ctest/common.cpp. The generator and its two distributions are the
-- C++ library's: any state with a draw from each. The extents are ones that an int32_t holds.
pub mod Sides
use cwapper.Base.{ℕ, zero, suc, ◌-◌, Bool, not, ◌&&◌, List, [], ◌∷◌, ◌==◌, if◌then◌else◌}
use cwapper.Floats.{Doubles}
use cwapper.Harness.Matrix.{CsrMatrix, pack}

-- uniform_real_distribution(0, 1) and normal_distribution(0, 1) on a std::mt19937.
pub record Generator (V : Type 0) : Type 1 where
  pub Rng : Type 0
  pub seeded : ℕ → Rng
  pub unit : Rng → V × Rng
  pub value : Rng → V × Rng

module _ (d : Doubles) (g : Generator d.V) where
  -- a < b
  abbrev pub below : d.V → d.V → Bool
  below a b = d.le a b && not (d.le b a)

  abbrev pub in_front : ℕ × d.V → List (ℕ × d.V) × g.Rng → List (ℕ × d.V) × g.Rng
  in_front e (es, s) = (e ∷ es, s)

  -- The columns from `c` on of a row of random_csr, so many of them.
  unfoldable pub csr_row : d.V → ℕ → ℕ → g.Rng → List (ℕ × d.V) × g.Rng
  csr_row density c zero s = ([], s)
  csr_row density c (suc k) s =
      let draw = g.unit s in
      let entry = g.value draw.1 in
      let taken = csr_row density (suc c) k entry.1 in
      let skipped = csr_row density (suc c) k draw.1 in
      if below draw.0 density then in_front (c, entry.0) taken else skipped

  unfoldable pub csr_rows : d.V → ℕ → ℕ → g.Rng → List (List (ℕ × d.V))
  unfolding csr_row
  csr_rows density cols zero s = []
  csr_rows density cols (suc k) s =
      let draw = g.unit s in
      let row_density =
        d.times density (d.plus (d.literal "0.25") (d.times (d.literal "1.5") draw.0)) in
      let first = csr_row row_density 0 cols draw.1 in first.0 ∷ csr_rows density cols k first.1

  unfoldable pub random_csr : ℕ → ℕ → d.V → ℕ → CsrMatrix d.V
  unfolding csr_rows pack
  random_csr rows cols density seed = pack rows cols (csr_rows density cols rows (g.seeded seed))

  -- The columns from `c` on of row `r` of random_triangular; `scale` is 4 times the expected number of
  -- entries.
  unfoldable pub triangular_row : d.V → d.V → Bool → ℕ → ℕ → ℕ → g.Rng → List (ℕ × d.V) × g.Rng
  triangular_row density scale unit_diag r c zero s = ([], s)
  triangular_row density scale unit_diag r c (suc k) s =
      let diag = g.value s in
      let draw = g.unit s in
      let entry = g.value draw.1 in
      let implicit = triangular_row density scale unit_diag r (suc c) k s in
      let stored = triangular_row density scale unit_diag r (suc c) k diag.1 in
      let taken = triangular_row density scale unit_diag r (suc c) k entry.1 in
      let skipped = triangular_row density scale unit_diag r (suc c) k draw.1 in
      if c == r
      then (if unit_diag
          then implicit
          else in_front (c, d.plus (d.literal "2.0") (d.magnitude diag.0)) stored)
      else if d.le density draw.0
      then skipped
      else in_front (c, d.over entry.0 scale) taken

  -- From row `r` on, so many of the `n` rows.
  unfoldable pub triangular_rows :
      d.V → d.V → Bool → Bool → ℕ → ℕ → ℕ → g.Rng → List (List (ℕ × d.V))
  unfolding triangular_row
  triangular_rows density scale lower unit_diag n r zero s = []
  triangular_rows density scale lower unit_diag n r (suc k) s =
      let begin = if lower then 0 else r in
      let end = if lower then suc r else n in
      let first = triangular_row density scale unit_diag r begin (end - begin) s in
      first.0 ∷ triangular_rows density scale lower unit_diag n (suc r) k first.1

  unfoldable pub random_triangular : ℕ → d.V → Bool → Bool → ℕ → CsrMatrix d.V
  unfolding triangular_rows pack
  random_triangular n density lower unit_diag seed =
      let average = d.times density (d.whole n) in
      let expected = if below d.one average then average else d.one in
      pack n n (
        triangular_rows density (d.times (d.literal "4.0") expected) lower unit_diag n 0 n
          (g.seeded seed))
