-- ===== src/Harness/Sell.antt =====
-- random_sell_lower of ctest/common.cpp: a lower triangle with a full diagonal, in sliced ELL. The
-- columns are below n, which an int32_t holds.
pub mod Slots
use cwapper.Base.{
  to_word, ℕ, zero, suc, ◌+◌, ◌-◌, ◌*◌, ◌/◌, ℤ, pos, negsuc, List, [], ◌∷◌, map, length, get_or,
  max, table, if◌then◌else◌,
}
use cwapper.Floats.{Doubles}
use cwapper.Meta.{accumulate}
use cwapper.Harness.Matrix.{flatten}
use cwapper.Harness.Random.{Generator, below, in_front}

pub record SellMatrix (V : Type 0) : Type 0 where
  pub n : ℕ
  pub slice_size : ℕ
  pub offsets : List ℤ
  pub cols : List ℤ
  pub values : List V

-- A slot of the format: a column and a value.
abbrev pub Slot : Doubles → Type 0
Slot d = ℤ × d.V

module _ (d : Doubles) where
  -- The slot of a row, or padding past its entries.
  abbrev pub slot_of : List (ℕ × d.V) → ℕ → Slot d
  slot_of [] s = (negsuc 0, d.zero)
  slot_of ((c, v) ∷ rest) zero = (pos c, v)
  slot_of ((c, v) ∷ rest) (suc s) = slot_of rest s

  -- The row of a lane, which has nothing past the last row.
  abbrev pub lane_row : List (List (ℕ × d.V)) → ℕ → ℕ → ℕ → List (ℕ × d.V)
  lane_row rows size s lane = get_or rows (s * size + lane) []

  -- The longest row of a slice, over so many lanes.
  unfoldable pub width : List (List (ℕ × d.V)) → ℕ → ℕ → ℕ → ℕ
  width rows size s zero = 0
  width rows size s (suc lane) = max (width rows size s lane) (length (lane_row rows size s lane))

  -- The slots of a slice: slot by slot, and lane by lane within.
  unfoldable pub slice_slots : List (List (ℕ × d.V)) → ℕ → ℕ → List (Slot d)
  unfolding width
  slice_slots rows size s = flatten (
      table 0 (width rows size s size)
        (λ slot. table 0 size (λ lane. slot_of (lane_row rows size s lane) slot)))

  -- The offsets are the numbers of slots so far, cast to int32_t.
  unfoldable pub pack_sell : ℕ → ℕ → List (List (ℕ × d.V)) → SellMatrix d.V
  unfolding slice_slots
  pack_sell n size rows =
      let slices = table 0 ((n + size - 1) / size) (λ s. slice_slots rows size s) in
      let whole = flatten slices in
      record {
        n = n;
        slice_size = size;
        offsets = map to_word (0 ∷ accumulate 0 (map length slices));
        cols = map (λ e. e.0) whole;
        values = map (λ e. e.1) whole;
      }

  module _ (g : Generator d.V) where
    -- The columns from `c` on of row `r`, so many of them, and the diagonal behind them.
    unfoldable pub sell_row : d.V → d.V → ℕ → ℕ → ℕ → g.Rng → List (ℕ × d.V) × g.Rng
    sell_row density scale r c zero s =
        let diag = g.value s in ((r, d.plus (d.literal "2.0") (d.magnitude diag.0)) ∷ [], diag.1)
    sell_row density scale r c (suc k) s =
        let draw = g.unit s in
        let entry = g.value draw.1 in
        let taken = sell_row density scale r (suc c) k entry.1 in
        let skipped = sell_row density scale r (suc c) k draw.1 in
        if d.le density draw.0 then skipped else in_front d g (c, d.over entry.0 scale) taken

    unfoldable pub sell_rows : d.V → d.V → ℕ → ℕ → g.Rng → List (List (ℕ × d.V))
    unfolding sell_row
    sell_rows density scale r zero s = []
    sell_rows density scale r (suc k) s =
        let first = sell_row density scale r 0 r s in
        first.0 ∷ sell_rows density scale (suc r) k first.1

    unfoldable pub random_sell_lower : ℕ → ℕ → d.V → ℕ → SellMatrix d.V
    unfolding sell_rows pack_sell
    random_sell_lower n size density seed =
        let average = d.times density (d.whole n) in
        let expected = if below d g d.one average then average else d.one in
        let scale = d.times (d.literal "4.0") expected in
        pack_sell n size (sell_rows density scale 0 n (g.seeded seed))
