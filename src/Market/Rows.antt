-- ===== src/Market/Rows.antt =====
-- The row offsets of ctest/mmio.hpp: the entries between two offsets are those of one row.
use cwapper.Base.{
  ℕ, zero, suc, ◌+◌, ◌≡◌, ◌≤◌, ◌<◌, refl, ap, ◌∙◌, arith, ℤ, pos, lt_ℤ, true, false, Bool-cases,
  inl, inr, List, [], ◌∷◌, map, length, take, drop, replicate, All, Option, none, some, ◌==◌,
  if◌then◌else◌, table, table-≡, take-All,
}
use cwapper.Meta.{increment}
use cwapper.Meta.Sorted.{IsAbove, IsAscending}
use cwapper.Market.{Entry, before, tally}
use cwapper.Market.Order.{IsStrict}

abbrev bump_at : ℕ → (ℕ → ℕ) → ℕ → ℕ
bump_at p f i = if i == p then suc (f i) else f i

increment-table :
    (j lo n : ℕ) (f : ℕ → ℕ) → increment j (table lo n f) ≡ table lo n (bump_at (lo + j) f)
unfolding increment
increment-table zero lo zero f = refl
increment-table (suc j) lo zero f = refl
increment-table zero lo (suc n) f =
    let here : bump_at (lo + 0) f lo ≡ suc (f lo) = ground arith in
    let rest = table-≡ (suc lo) n f (bump_at (lo + 0) f) (λ i le. ground arith) in cc
increment-table (suc j) lo (suc n) f =
    let here : bump_at (lo + suc j) f lo ≡ f lo = ground arith in
    let rest =
      increment-table j (suc lo) n f
      ∙ table-≡ (suc lo) n (bump_at (suc lo + j) f) (bump_at (lo + suc j) f)
          (λ i le. ground arith) in
    cc

replicate-table : (lo n : ℕ) → replicate {A = ℕ} n 0 ≡ table lo n (λ i. 0)
replicate-table lo zero = refl
replicate-table lo (suc n) = ap (λ xs. 0 ∷ xs) (replicate-table (suc lo) n)

module _ {V : Type 0} where
  -- How many entries a row has.
  abbrev pub count_row : ℕ → List (Entry V) → ℕ
  count_row i [] = 0
  count_row i (e ∷ es) = let rest = count_row i es in if e.r == i then suc rest else rest

  tally-table :
      (n : ℕ) (f : ℕ → ℕ) (es : List (Entry V))
      → tally (table 0 n f) es ≡ table 0 n (λ i. f i + count_row i es)
  unfolding tally
  tally-table n f [] = table-≡ 0 n f (λ i. f i + 0) (λ i le. ground arith)
  tally-table n f (e ∷ es) =
      ap (λ xs. tally xs es) (increment-table e.r 0 n f)
      ∙ tally-table n (bump_at (0 + e.r) f) es
      ∙ table-≡ 0 n (λ i. bump_at (0 + e.r) f i + count_row i es) (λ i. f i + count_row i (e ∷ es))
          (λ i le. ground arith)

  -- What per_row holds.
  pub tally-count_row :
      (n : ℕ) (es : List (Entry V)) → tally (replicate n 0) es ≡ table 0 n (λ i. count_row i es)
  tally-count_row n es =
      ap (λ xs. tally xs es) (replicate-table 0 n)
      ∙ tally-table n (λ i. 0) es
      ∙ table-≡ 0 n (λ i. 0 + count_row i es) (λ i. count_row i es) (λ i le. ground arith)

  -- In entries from row `lo` on, those of the row stand first.
  count_row-none :
      (lo : ℕ) (es : List (Entry V)) → All (λ (x : Entry V). lo < x.r) es → count_row lo es ≡ 0
  count_row-none lo [] h = refl
  count_row-none lo (x ∷ xs) h = let rest = count_row-none lo xs h.1 in ground arith

  after-All :
      (lo : ℕ) (e : Entry V) (es : List (Entry V))
      → lo < e.r
      → All (λ (x : Entry V). before e x ≡ true) es
      → All (λ (x : Entry V). lo < x.r) es
  after-All lo e [] h hs = tt
  after-All lo e (x ∷ xs) h hs = (ground arith, after-All lo e xs h hs.1)

  abbrev pub IsFrom : ℕ → List (Entry V) → Type 0
  IsFrom lo = All (λ (x : Entry V). lo ≤ x.r)

  -- The first `n` entries are those of the row, and the others are of later ones.
  pub record SplitsAt (lo : ℕ) (es : List (Entry V)) (n : ℕ) : Type 0 where
    pub inside : All (λ (x : Entry V). x.r ≡ lo) (take n es)
    pub outside : All (λ (x : Entry V). lo < x.r) (drop n es)

  pub splits :
      (lo : ℕ) (es : List (Entry V)) → IsStrict es → IsFrom lo es → SplitsAt lo es (count_row lo es)
  splits lo [] h k = record { inside = tt; outside = tt }
  splits lo (e ∷ es) h k = elim (Bool-cases (e.r == lo)) [
    | inl b ↦
        let rest = splits lo es h.1 k.1 in
        rw (b) (record { inside = (ground arith, rest.inside); outside = rest.outside })
    | inr b ↦
        let later = after-All lo e es (ground arith) h.0 in
        rw (b, count_row-none lo es later) (record { inside = tt; outside = (ground arith, later) })
  ]

  pub take-IsStrict : (n : ℕ) (es : List (Entry V)) → IsStrict es → IsStrict (take n es)
  take-IsStrict zero es h = tt
  take-IsStrict (suc n) [] h = tt
  take-IsStrict (suc n) (e ∷ es) h =
      (take-All (λ (x : Entry V). before e x ≡ true) n es h.0, take-IsStrict n es h.1)

  pub drop-IsStrict : (n : ℕ) (es : List (Entry V)) → IsStrict es → IsStrict (drop n es)
  drop-IsStrict zero es h = h
  drop-IsStrict (suc n) [] h = tt
  drop-IsStrict (suc n) (e ∷ es) h = drop-IsStrict n es h.1

  abbrev pub IsNarrow : ℤ → List (Entry V) → Type 0
  IsNarrow cols = All (λ (x : Entry V). lt_ℤ (pos x.c) cols ≡ true)

  abbrev pub columns : List (Entry V) → List ℤ
  columns = map (λ (e : Entry V). pos e.c)

  -- The columns of one row.
  pub row-IsAscending :
      (lo : ℕ) (cols : ℤ) (previous : Option ℤ) (es : List (Entry V))
      → All (λ (x : Entry V). x.r ≡ lo) es
      → IsStrict es
      → IsNarrow cols es
      → All (λ (x : Entry V). IsAbove previous (pos x.c)) es
      → IsAscending cols previous (columns es)
  row-IsAscending lo cols previous [] row strict narrow above = tt
  row-IsAscending lo cols previous (e ∷ es) row strict narrow above = (
    ground arith,
    narrow.0,
    above.0,
    row-IsAscending lo cols (some (pos e.c)) es row.1 strict.1 narrow.1
        (above_first lo e es row.0 row.1 strict.0),
  )
    where
      above_first :
          (lo : ℕ) (e : Entry V) (xs : List (Entry V))
          → e.r ≡ lo
          → All (λ (x : Entry V). x.r ≡ lo) xs
          → All (λ (x : Entry V). before e x ≡ true) xs
          → All (λ (x : Entry V). IsAbove (some (pos e.c)) (pos x.c)) xs
      above_first lo e [] h hs k = tt
      above_first lo e (x ∷ xs) h hs k = (ground arith, above_first lo e xs h hs.1 k.1)

  pub unbounded : (es : List (Entry V)) → All (λ (x : Entry V). IsAbove none (pos x.c)) es
  unbounded [] = tt
  unbounded (x ∷ xs) = (tt, unbounded xs)

  -- The counts of later rows do not see the entries of this one.
  pub count_row-drop :
      (i lo n : ℕ) (es : List (Entry V))
      → lo < i
      → All (λ (x : Entry V). x.r ≡ lo) (take n es)
      → count_row i es ≡ count_row i (drop n es)
  count_row-drop i lo zero es h k = refl
  count_row-drop i lo (suc n) [] h k = refl
  count_row-drop i lo (suc n) (e ∷ es) h k =
      let rest = count_row-drop i lo n es h k.1 in
      let other : (e.r == i) ≡ false = ground arith in rw (other) rest

  pub count_row-le-length : (i : ℕ) (es : List (Entry V)) → count_row i es ≤ length es
  count_row-le-length i [] = ground arith
  count_row-le-length i (e ∷ es) = let rest = count_row-le-length i es in ground arith
