-- ===== src/Harness/Random/Sides.antt =====
-- The matrices of random_csr and random_triangular (ctest/common.cpp): ascending columns, each row on
-- its side of the diagonal.
use cwapper.Base.{
  int32_max, ◌≤◌, ℕ, zero, suc, ◌+◌, ◌-◌, ◌≡◌, ◌≤◌, ◌<◌, refl, sym, subst, arith, inl, inr,
  Bool-cases, ℤ, pos, Bool, Option, none, some, List, [], ◌∷◌, length, get_or, map, All, ◌==◌,
  if◌then◌else◌,
}
use cwapper.Floats.{Doubles}
use cwapper.Meta.Sorted.{IsAbove, IsAscending, IsSortedCsr}
use cwapper.Harness.Matrix.{row}
use cwapper.Harness.Packed.{columns_of, row-pack, pack-IsSortedCsr}
use cwapper.Harness.Random.{
  Generator, below, csr_row, csr_rows, random_csr, triangular_row, triangular_rows,
  random_triangular,
}

module _ (d : Doubles) (g : Generator d.V) where
  -- Every column is above the one before it and within the two bounds.
  abbrev pub IsBetween : ℕ → ℕ → List (ℕ × d.V) → Type 0
  IsBetween lo hi [] = Unit {0}
  IsBetween lo hi ((c, v) ∷ rest) = (lo ≤ c) × (c < hi) × IsBetween (suc c) hi rest

  wider :
      (lo lower hi : ℕ) (xs : List (ℕ × d.V))
      → lower ≤ lo
      → IsBetween lo hi xs
      → IsBetween lower hi xs
  wider lo lower hi [] le h = tt
  wider lo lower hi ((c, v) ∷ rest) le h = (omega (arith, le, h.0), h.1, h.2)

  IsBetween-IsAscending :
      (cols : ℕ) (previous : Option ℤ) (lo hi : ℕ) (xs : List (ℕ × d.V))
      → ((c : ℕ) → lo ≤ c → IsAbove previous (pos c))
      → hi ≤ cols
      → IsBetween lo hi xs
      → IsAscending (pos cols) previous (columns_of xs)
  IsBetween-IsAscending cols previous lo hi [] k le h = tt
  IsBetween-IsAscending cols previous lo hi ((c, v) ∷ rest) k le h = (
    omega arith,
    ground arith,
    k c h.0,
    IsBetween-IsAscending cols (some (pos c)) (suc c) hi rest (λ e above. ground arith) le h.2,
  )

  csr_row-IsBetween :
      (density : d.V) (c k hi : ℕ) (s : g.Rng)
      → c + k ≤ hi
      → IsBetween c hi (csr_row d g density c k s).0
  unfolding csr_row
  csr_row-IsBetween density c zero hi s le = tt
  csr_row-IsBetween density c (suc k) hi s le =
      let draw = g.unit s in
      let entry = g.value draw.1 in
      elim (Bool-cases (below d g draw.0 density)) [
        | inl e ↦
            rw (e) (
              omega arith,
              omega arith,
              csr_row-IsBetween density (suc c) k hi entry.1 (omega arith),
            )
        | inr e ↦
            let rest = csr_row d g density (suc c) k draw.1 in
            rw (e) (
              wider (suc c) c hi rest.0 (omega arith)
                (csr_row-IsBetween density (suc c) k hi draw.1 (omega arith)))
      ]

  triangular_row-IsBetween :
      (density scale : d.V) (unit_diag : Bool) (r c k hi : ℕ) (s : g.Rng)
      → c + k ≤ hi
      → IsBetween c hi (triangular_row d g density scale unit_diag r c k s).0
  unfolding triangular_row
  triangular_row-IsBetween density scale unit_diag r c zero hi s le = tt
  triangular_row-IsBetween density scale unit_diag r c (suc k) hi s le =
      let draw = g.unit s in
      let later : (t : g.Rng)
          → IsBetween (suc c) hi (triangular_row d g density scale unit_diag r (suc c) k t).0 =
        λ t. triangular_row-IsBetween density scale unit_diag r (suc c) k hi t (omega arith) in
      let skip : (t : g.Rng)
          → IsBetween c hi (triangular_row d g density scale unit_diag r (suc c) k t).0 =
        λ t.
          wider (suc c) c hi (triangular_row d g density scale unit_diag r (suc c) k t).0
            (omega arith) (later t) in
      elim (Bool-cases (c == r)) [
        | inl e ↦ elim (Bool-cases unit_diag) [
          | inl u ↦ rw (e, u) (skip s)
          | inr u ↦ rw (e, u) (omega arith, omega arith, later (g.value s).1)
        ]
        | inr e ↦ elim (Bool-cases (d.le density draw.0)) [
          | inl u ↦ rw (e, u) (skip draw.1)
          | inr u ↦ rw (e, u) (omega arith, omega arith, later (g.value draw.1).1)
        ]
      ]

  csr_rows-IsAscending :
      (density : d.V) (cols k : ℕ) (s : g.Rng)
      → All (λ xs. IsAscending (pos cols) none (columns_of xs)) (csr_rows d g density cols k s)
  unfolding csr_rows
  csr_rows-IsAscending density cols zero s = tt
  csr_rows-IsAscending density cols (suc k) s =
      let draw = g.unit s in
      let row_density =
        d.times density (d.plus (d.literal "0.25") (d.times (d.literal "1.5") draw.0)) in
      let first = csr_row d g row_density 0 cols draw.1 in
      (
        IsBetween-IsAscending cols none 0 cols first.0 (λ c le. tt) (omega arith)
            (csr_row-IsBetween row_density 0 cols cols draw.1 (omega arith)),
        csr_rows-IsAscending density cols k first.1,
      )

  -- Whatever the generator draws, the arrays of random_csr, if an int32_t holds the number of entries,
  -- are in the form that the library checks for.
  random_csr-IsSortedCsr :
      (rows cols : ℕ) (density : d.V) (seed : ℕ)
      → (random_csr d g rows cols density seed).nnz ≤ int32_max
      → IsSortedCsr
          (pos cols)
          (pos (random_csr d g rows cols density seed).nnz)
          (map pos (random_csr d g rows cols density seed).indices)
          (random_csr d g rows cols density seed).indptr
  unfolding random_csr
  random_csr-IsSortedCsr rows cols density seed small =
      pack-IsSortedCsr rows cols (csr_rows d g density cols rows (g.seeded seed)) small
        (csr_rows-IsAscending density cols rows (g.seeded seed))

  -- Each row from `r` on keeps to its side of the diagonal.
  abbrev IsTriangle : Bool → ℕ → ℕ → List (List (ℕ × d.V)) → Type 0
  IsTriangle lower n r [] = Unit {0}
  IsTriangle lower n r (xs ∷ xss) =
      IsBetween (if lower then 0 else r) (if lower then suc r else n) xs
      × IsTriangle lower n (suc r) xss

  triangular_rows-IsTriangle :
      (density scale : d.V) (lower unit_diag : Bool) (n r k : ℕ) (s : g.Rng)
      → r + k ≤ n
      → IsTriangle lower n r (triangular_rows d g density scale lower unit_diag n r k s)
  unfolding triangular_rows
  triangular_rows-IsTriangle density scale lower unit_diag n r zero s le = tt
  triangular_rows-IsTriangle density scale lower unit_diag n r (suc k) s le =
      let begin = if lower then 0 else r in
      let end = if lower then suc r else n in
      let first = triangular_row d g density scale unit_diag r begin (end - begin) s in
      let fits : begin + (end - begin) ≤ end = ground arith in
      (
        triangular_row-IsBetween density scale unit_diag r begin (end - begin) end s fits,
        triangular_rows-IsTriangle density scale lower unit_diag n (suc r) k first.1 (omega arith),
      )

  IsTriangle-IsAscending :
      (lower : Bool) (n r : ℕ) (xss : List (List (ℕ × d.V)))
      → r + length xss ≤ n
      → IsTriangle lower n r xss
      → All (λ xs. IsAscending (pos n) none (columns_of xs)) xss
  IsTriangle-IsAscending lower n r [] le h = tt
  IsTriangle-IsAscending lower n r (xs ∷ xss) le h =
      let end : (if lower then suc r else n) ≤ n = ground arith in
      (
        IsBetween-IsAscending n none (if lower then 0 else r) (if lower then suc r else n) xs
            (λ c le. tt) end h.0,
        IsTriangle-IsAscending lower n (suc r) xss (omega arith) h.1,
      )

  length-triangular_rows :
      (density scale : d.V) (lower unit_diag : Bool) (n r k : ℕ) (s : g.Rng)
      → length (triangular_rows d g density scale lower unit_diag n r k s) ≡ k
  unfolding triangular_rows
  length-triangular_rows density scale lower unit_diag n r zero s = refl
  length-triangular_rows density scale lower unit_diag n r (suc k) s =
      omega (arith, length-triangular_rows density scale lower unit_diag n (suc r) k _)

  get_or-IsTriangle :
      (lower : Bool) (n r i : ℕ) (xss : List (List (ℕ × d.V)))
      → IsTriangle lower n r xss
      → i < length xss
      → IsBetween (if lower then 0 else r + i) (if lower then suc (r + i) else n) (get_or xss i [])
  get_or-IsTriangle lower n r i [] h lt = absurd (omega (arith, lt))
  get_or-IsTriangle lower n r zero (xs ∷ xss) h lt =
      let e : r ≡ r + 0 = ground arith in
      subst (λ j. IsBetween (if lower then 0 else j) (if lower then suc j else n) xs) e h.0
  get_or-IsTriangle lower n r (suc i) (xs ∷ xss) h lt =
      let e : suc r + i ≡ r + suc i = ground arith in
      subst (λ j. IsBetween (if lower then 0 else j) (if lower then suc j else n) (get_or xss i []))
        e (get_or-IsTriangle lower n (suc r) i xss h.1 (omega (arith, lt)))

  -- Whatever the generator draws, if an int32_t holds the number of entries, the arrays of
  -- random_triangular are in the form that the library
  -- checks for, and the columns of each row are on the side of the diagonal that was asked for, the
  -- diagonal included.
  random_triangular-IsBetween :
      (n : ℕ) (density : d.V) (lower unit_diag : Bool) (seed r : ℕ)
      → (random_triangular d g n density lower unit_diag seed).nnz ≤ int32_max
      → r < n
      → IsSortedCsr
          (pos n)
          (pos (random_triangular d g n density lower unit_diag seed).nnz)
          (map pos (random_triangular d g n density lower unit_diag seed).indices)
          (random_triangular d g n density lower unit_diag seed).indptr
        × IsBetween
            (if lower then 0 else r)
            (if lower then suc r else n)
            (row (random_triangular d g n density lower unit_diag seed) r)
  unfolding random_triangular
  random_triangular-IsBetween n density lower unit_diag seed r small lt =
      let average = d.times density (d.whole n) in
      let expected = if below d g d.one average then average else d.one in
      let scale = d.times (d.literal "4.0") expected in
      let rows = triangular_rows d g density scale lower unit_diag n 0 n (g.seeded seed) in
      let size = length-triangular_rows density scale lower unit_diag n 0 n (g.seeded seed) in
      let sides =
        triangular_rows-IsTriangle density scale lower unit_diag n 0 n (g.seeded seed)
          (omega arith) in
      let inside : r < length rows = omega (arith, size, lt) in
      let e : 0 + r ≡ r = ground arith in
      (
        pack-IsSortedCsr n n rows small
            (IsTriangle-IsAscending lower n 0 rows (omega (arith, size)) sides),
        subst (IsBetween (if lower then 0 else r) (if lower then suc r else n))
            (sym (row-pack n n r rows small inside))
            (subst
              (λ j.
                IsBetween (if lower then 0 else j) (if lower then suc j else n) (get_or rows r []))
              e (get_or-IsTriangle lower n 0 r rows sides inside)),
      )
