-- ===== src/Harness/Solve/Product.antt =====
-- trsv_reference and spmv_reference of ctest: the product of a triangle with its solution, where the
-- arithmetic is exact.
use cwapper.Base.{ℕ, ◌≡◌, List, [], ◌∷◌, get_or}
use cwapper.Floats.{Doubles}

-- Sums and differences are exact. Those of `double` are rounded, which sets the tolerance of a check.
pub record IsExact (d : Doubles) : Type 0 where
  pub zero_plus : (a : d.V) → d.plus d.zero a ≡ a
  pub exchange : (s a p : d.V) → d.plus (d.plus s p) (d.minus a p) ≡ d.plus s a

module _ (d : Doubles) where
  -- `acc` less the products of the entries.
  abbrev remainder : List d.V → d.V → List (ℕ × d.V) → d.V
  remainder x acc [] = acc
  remainder x acc ((c, v) ∷ rest) = remainder x (d.minus acc (d.times v (get_or x c d.zero))) rest
