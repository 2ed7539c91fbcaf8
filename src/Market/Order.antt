-- ===== src/Market/Order.antt =====
-- The sort and the sum of repeated cells in ctest/mmio.hpp: the order of the entries that are kept.
use cwapper.Base.{ℕ, ◌≡◌, arith, Bool-cases, inl, inr, true, false, ◌&&◌, List, [], ◌∷◌, All, ◌==◌}
use cwapper.Floats.{Doubles}
use cwapper.Market.{Entry, before, insert_entry, sort_entries, absorb, merge}

module _ {V : Type 0} where
  -- By row and then by column, cells repeated.
  abbrev pub IsSorted : List (Entry V) → Type 0
  IsSorted [] = Unit {0}
  IsSorted (e ∷ es) = All (λ (x : Entry V). before x e ≡ false) es × IsSorted es

  -- The same, no cell repeated.
  abbrev pub IsStrict : List (Entry V) → Type 0
  IsStrict [] = Unit {0}
  IsStrict (e ∷ es) = All (λ (x : Entry V). before e x ≡ true) es × IsStrict es

  below-All :
      (a b : Entry V) (es : List (Entry V))
      → before b a ≡ false
      → All (λ (x : Entry V). before x b ≡ false) es
      → All (λ (x : Entry V). before x a ≡ false) es
  below-All a b [] h hs = tt
  below-All a b (x ∷ xs) h hs = (ground arith, below-All a b xs h hs.1)

  pub above-All :
      (a b : Entry V) (es : List (Entry V))
      → before a b ≡ true
      → All (λ (x : Entry V). before x b ≡ false) es
      → All (λ (x : Entry V). before a x ≡ true) es
  above-All a b [] h hs = tt
  above-All a b (x ∷ xs) h hs = (ground arith, above-All a b xs h hs.1)

  pub insert_entry-All :
      (P : Entry V → Type 0) (e : Entry V) (es : List (Entry V))
      → P e
      → All P es
      → All P (insert_entry e es)
  unfolding insert_entry
  insert_entry-All P e [] h hs = (h, tt)
  insert_entry-All P e (x ∷ xs) h hs = elim (Bool-cases (before x e)) [
    | inl b ↦ rw (b) (hs.0, insert_entry-All P e xs h hs.1)
    | inr b ↦ rw (b) (h, hs)
  ]

  pub sort_entries-All :
      (P : Entry V → Type 0) (es : List (Entry V)) → All P es → All P (sort_entries es)
  unfolding sort_entries
  sort_entries-All P [] h = tt
  sort_entries-All P (e ∷ es) h =
      insert_entry-All P e (sort_entries es) h.0 (sort_entries-All P es h.1)

  not_after : (x e : Entry V) → before x e ≡ true → before e x ≡ false
  not_after x e h = ground arith

  insert_entry-IsSorted :
      (e : Entry V) (es : List (Entry V)) → IsSorted es → IsSorted (insert_entry e es)
  unfolding insert_entry
  insert_entry-IsSorted e [] h = (tt, tt)
  insert_entry-IsSorted e (x ∷ xs) h = elim (Bool-cases (before x e)) [
    | inl b ↦ rw (b) (
      insert_entry-All (λ (y : Entry V). before y x ≡ false) e xs (not_after x e b) h.0,
      insert_entry-IsSorted e xs h.1,
    )
    | inr b ↦ rw (b) ((b, below-All e x xs b h.0), h)
  ]

  pub sort_entries-IsSorted : (es : List (Entry V)) → IsSorted (sort_entries es)
  unfolding sort_entries
  sort_entries-IsSorted [] = tt
  sort_entries-IsSorted (e ∷ es) =
      insert_entry-IsSorted e (sort_entries es) (sort_entries-IsSorted es)

  pub next_cell :
      (e x : Entry V) → (e.r == x.r && e.c == x.c) ≡ false → before x e ≡ false → before e x ≡ true
  next_cell e x h k = ground arith

module _ (d : Doubles) where
  pub absorb-All :
      (P : ℕ → ℕ → Type 0) (e : Entry d.V) (es : List (Entry d.V))
      → P e.r e.c
      → All (λ (x : Entry d.V). P x.r x.c) es
      → All (λ (x : Entry d.V). P x.r x.c) (absorb d e es)
  unfolding absorb
  absorb-All P e [] h hs = (h, tt)
  absorb-All P e (x ∷ xs) h hs = elim (Bool-cases (e.r == x.r && e.c == x.c)) [
    | inl b ↦ rw (b) (absorb-All P (record e { v = d.plus e.v x.v }) xs h hs.1)
    | inr b ↦ rw (b) (h, absorb-All P x xs hs.0 hs.1)
  ]

  absorb-IsStrict :
      (e : Entry d.V) (es : List (Entry d.V)) → IsSorted (e ∷ es) → IsStrict (absorb d e es)
  unfolding absorb
  absorb-IsStrict e [] h = (tt, tt)
  absorb-IsStrict e (x ∷ xs) h = elim (Bool-cases (e.r == x.r && e.c == x.c)) [
    | inl b ↦ rw (b) (absorb-IsStrict (record e { v = d.plus e.v x.v }) xs (h.0.1, h.1.1))
    | inr b ↦
        let first = next_cell e x b h.0.0 in
        rw (b) (
          absorb-All (λ r c. before e (record { r = r; c = c; v = e.v }) ≡ true) x xs first
              (above-All e x xs first h.1.0),
          absorb-IsStrict x xs h.1,
        )
  ]

  pub merge-All :
      (P : ℕ → ℕ → Type 0) (es : List (Entry d.V))
      → All (λ (x : Entry d.V). P x.r x.c) es
      → All (λ (x : Entry d.V). P x.r x.c) (merge d es)
  unfolding merge
  merge-All P [] h = tt
  merge-All P (e ∷ es) h = absorb-All P e es h.0 h.1

  pub merge-IsStrict : (es : List (Entry d.V)) → IsSorted es → IsStrict (merge d es)
  unfolding merge
  merge-IsStrict [] h = tt
  merge-IsStrict (e ∷ es) h = absorb-IsStrict e es h
