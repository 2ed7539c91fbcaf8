-- ===== src/Spgemm/Offsets.antt =====
-- The row offsets of C that flagsparseSpGEMM_compute of src/ops/spgemm.cpp derives on the host.
use cwapper.Base.{
  ℕ, ◌+◌, ◌≤◌, ◌<◌, ◌≡◌, ◌⊎◌, inl, inr, refl, arith, pos, +ℤ_pos, max_ℤ, max, List, [], ◌∷◌, map,
  int32_max, lt_ℤ, to_i32, to_i32-in_range, true, false,
}
use cwapper.Types.{not_supported}
use cwapper.Exec.{ok, err}
use cwapper.Meta.{accumulate}
use cwapper.Spgemm.Host.{row_offsets}

abbrev pub sum : List ℕ → ℕ
sum [] = 0
sum (k ∷ ks) = k + sum ks

abbrev pub largest : List ℕ → ℕ
largest [] = 0
largest (k ∷ ks) = max k (largest ks)

-- The offsets of rows of these lengths, from `a` on: the running sums.
DerivesFrom : ℕ → ℕ → List ℕ → Type 0
DerivesFrom a l ks =
    ((a + sum ks ≤ int32_max)
      × (row_offsets (pos a) (pos l) (map pos ks)
          ≡ (map pos (accumulate a ks), ok (pos (a + sum ks), pos (max l (largest ks))))))
    ⊎ ((int32_max < a + sum ks)
        × ((row_offsets (pos a) (pos l) (map pos ks)).1 ≡ err not_supported))

test_low : (n : ℕ) → n ≤ int32_max → lt_ℤ (pos int32_max) (pos n) ≡ false
test_low n h = ground arith

test_high : (n : ℕ) → int32_max < n → lt_ℤ (pos int32_max) (pos n) ≡ true
test_high n h = ground arith

max_pos : (l k : ℕ) → max_ℤ (pos l) (pos k) ≡ pos (max l k)
max_pos l k = ground arith

kept : (n : ℕ) → n ≤ int32_max → to_i32 (pos n) ≡ pos n
kept n h = to_i32-in_range (pos n) (ground arith) (ground arith)

-- One round, where the total still fits and where it does not.
row_offsets-next :
    (a l k : ℕ) (ks : List ℕ)
    → a + k ≤ int32_max
    → row_offsets (pos a) (pos l) (map pos (k ∷ ks)) ≡ (
      pos (a + k) ∷ (row_offsets (pos (a + k)) (pos (max l k)) (map pos ks)).0,
      (row_offsets (pos (a + k)) (pos (max l k)) (map pos ks)).1,
    )
unfolding row_offsets
row_offsets-next a l k ks h = rw (+ℤ_pos a k, test_low (a + k) h, kept (a + k) h, max_pos l k) refl

row_offsets-stops :
    (a l k : ℕ) (ks : List ℕ)
    → int32_max < a + k
    → (row_offsets (pos a) (pos l) (map pos (k ∷ ks))).1 ≡ err not_supported
unfolding row_offsets
row_offsets-stops a l k ks h = rw (+ℤ_pos a k, test_high (a + k) h) refl

stop_or_go : (n : ℕ) → (n ≤ int32_max) ⊎ (int32_max < n)
stop_or_go n = ground arith

assoc : (a k l : ℕ) → (a + k) + l ≡ a + (k + l)
assoc a k l = ground arith

max_assoc : (l k n : ℕ) → max (max l k) n ≡ max l (max k n)
max_assoc l k n = ground arith

row_offsets-none : (a l : ℕ) → a ≤ int32_max → DerivesFrom a l []
unfolding DerivesFrom row_offsets accumulate
row_offsets-none a l h =
    let same : a + 0 ≡ a = ground arith in
    let top : max l 0 ≡ l = ground arith in rw (same, top) (inl (h, refl))

row_offsets-DerivesFrom : (a l : ℕ) (ks : List ℕ) → a ≤ int32_max → DerivesFrom a l ks
unfolding DerivesFrom accumulate
row_offsets-DerivesFrom a l [] h = row_offsets-none a l h
row_offsets-DerivesFrom a l (k ∷ ks) h = elim (stop_or_go (a + k)) [
  | inr over ↦ inr (ground arith, row_offsets-stops a l k ks over)
  | inl fits ↦
      let next = row_offsets-next a l k ks fits in
      elim (row_offsets-DerivesFrom (a + k) (max l k) ks fits) [
        | inl rest ↦ inl (
          omega (arith, rest.0),
          rw (next, rest.1, assoc a k (sum ks), max_assoc l k (largest ks)) refl,
        )
        | inr rest ↦ inr (omega (arith, rest.0), rw (next) rest.1)
      ]
]

-- The counts of the rows of C, as the count kernel leaves them, are derived into offsets that are
-- their running sums (those that build_coo_row_offsets makes of the counts of a COO matrix), with the
-- sum as the number of entries of C and the largest count, if the sum fits an int32; otherwise the
-- call refuses.
pub row_offsets-sums :
    (ks : List ℕ)
    → ((sum ks ≤ int32_max)
        × (row_offsets (pos 0) (pos 0) (map pos ks)
            ≡ (map pos (accumulate 0 ks), ok (pos (sum ks), pos (largest ks)))))
      ⊎ ((int32_max < sum ks) × ((row_offsets (pos 0) (pos 0) (map pos ks)).1 ≡ err not_supported))
unfolding DerivesFrom
row_offsets-sums ks =
    let from_zero : 0 + sum ks ≡ sum ks = ground arith in
    let top : max 0 (largest ks) ≡ largest ks = ground arith in
    elim (row_offsets-DerivesFrom 0 0 ks (ground arith)) [
      | inl r ↦ inl (omega (arith, r.0), rw (r.1, from_zero, top) refl)
      | inr r ↦ inr (omega (arith, r.0), r.1)
    ]
