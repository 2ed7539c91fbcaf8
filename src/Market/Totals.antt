-- ===== src/Market/Totals.antt =====
-- The values of ctest/mmio.hpp: repeated cells, and the mirror of a symmetric file.
use mathlib.Core.List.{Perm}
use mathlib.Core.List.Perm as Perms
use cwapper.Base.{
  Option, some, none, ℕ, ◌≡◌, refl, arith, ℤ, Bool, true, false, ◌&&◌, List, [], ◌∷◌, ◌==◌,
  if◌then◌else◌,
}
use cwapper.Floats.{Doubles}
use cwapper.Market.{Entry, Banner, push, read_entries}
use cwapper.Market.Lines.{Scanned, read_entries-Scanned}

module _ {V : Type 0} where
  -- The values that a list of entries has for a cell, in the order of the list.
  unfoldable pub matching : ℕ → ℕ → List (Entry V) → List V
  matching r c [] = []
  matching r c (e ∷ es) =
      let rest = matching r c es in if e.r == r && e.c == c then e.v ∷ rest else rest

  abbrev cell_value : ℕ → ℕ → Entry V → Option V
  cell_value r c e = if e.r == r && e.c == c then some e.v else none

module _ (d : Doubles) where
  abbrev sum_from : d.V → List d.V → d.V
  sum_from v [] = v
  sum_from v (x ∷ xs) = sum_from (d.plus v x) xs

  -- The values of a cell added up from the first one on, if there are any.
  abbrev pub summed : List d.V → List d.V
  summed [] = []
  summed (v ∷ vs) = sum_from v vs ∷ []

  push-matching :
      (r c : ℕ) (symmetric skew : Bool) (e : Entry d.V) (es : List (Entry d.V))
      → symmetric ≡ true
      → skew ≡ false
      → matching r c es ≡ matching c r es
      → matching r c (push d symmetric skew e es) ≡ matching c r (push d symmetric skew e es)
  unfolding push matching
  push-matching r c symmetric skew e es s k h = ground arith

  -- The entries of a symmetric file that is not skew have, for every cell, the values of the mirrored
  -- cell, in one order.
  read_entries-matching :
      (b : Banner) (m n : ℤ) (k : ℕ) (lines : List (List ℕ)) (r c : ℕ)
      → b.symmetric ≡ true
      → b.skew ≡ false
      → Scanned (λ coo. matching r c coo ≡ matching c r coo) (read_entries d b m n k lines)
  unfolding matching
  read_entries-matching b m n k lines r c s skew =
      read_entries-Scanned d (λ coo. matching r c coo ≡ matching c r coo) b m n k lines refl
        (λ e es _ h. push-matching r c b.symmetric b.skew e es s skew h)
