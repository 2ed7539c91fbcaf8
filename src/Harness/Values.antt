-- ===== src/Harness/Values.antt =====
-- The operands of a sweep (ctest/sweep.hpp: upload_as, read_back) and the tolerances on what comes back
-- (ctest/common.cpp). The copies to the device and back are those of ctest/common.hpp.
pub mod Within
use cwapper.Base.{
  ℕ, zero, suc, ◌+◌, ◌*◌, ◌==◌, ◌≡◌, ◌<◌, refl, sym, ap, ◌∙◌, arith, Bool, true, false, not, ◌&&◌,
  ◌||◌, List, [], ◌∷◌, map, length, get_or, table, table-≡, length-table, get_or-table, get_or_ext,
  length-map, if◌then◌else◌, ◌⊎◌,
}
use cwapper.Floats.{Doubles}
use cwapper.Types.{
  DataType, r_16f, r_32f, r_64f, c_32f, c_64f, r_16bf, r_8i, r_32i, dtype_size, IndexType,
  index_16u, index_32i, index_64i, index_size,
}
use cwapper.Harness.Half.{float_to_fp16, fp16_to_float, float_to_bf16, bf16_to_float}

unfoldable pub value_bytes : DataType → ℕ
value_bytes r_8i = 1
value_bytes r_16f = 2
value_bytes r_16bf = 2
value_bytes r_32f = 4
value_bytes r_32i = 4
value_bytes r_64f = 8
value_bytes c_32f = 8
value_bytes c_64f = 16
value_bytes _ = 0

unfoldable pub index_bytes : IndexType → ℕ
index_bytes index_16u = 2
index_bytes index_32i = 4
index_bytes index_64i = 8
index_bytes _ = 0

abbrev pub dtype_is_half : DataType → Bool
dtype_is_half r_16f = true
dtype_is_half r_16bf = true
dtype_is_half _ = false

abbrev pub dtype_is_64 : DataType → Bool
dtype_is_64 r_64f = true
dtype_is_64 c_64f = true
dtype_is_64 _ = false

abbrev pub dtype_is_complex : DataType → Bool
dtype_is_complex c_32f = true
dtype_is_complex c_64f = true
dtype_is_complex _ = false

abbrev pub dtype_components : DataType → ℕ
dtype_components t = if dtype_is_complex t then 2 else 1

unfoldable pub elem_bytes : DataType → ℕ
elem_bytes t = if dtype_is_half t then 2 else (if dtype_is_64 t then 8 else 4) * dtype_components t

-- The sizes of the tests are those of the library, for every type and index type; elem_bytes has them
-- for the six types of the sweeps.
value_bytes-dtype_size :
    (t : DataType) (i : IndexType)
    → (value_bytes t ≡ dtype_size t)
      × (index_bytes i ≡ index_size i)
      × ((elem_bytes t ≡ dtype_size t) ⊎ ((dtype_size t ≡ 0) ⊎ ((t ≡ r_8i) ⊎ (t ≡ r_32i))))
unfolding value_bytes index_bytes elem_bytes dtype_size index_size
value_bytes-dtype_size t i = ground arith

pub record Tolerance (V : Type 0) : Type 0 where
  pub rtol : V
  pub atol : V

module _ (d : Doubles) where
  abbrev tolerance : d.V → d.V → Tolerance d.V
  tolerance r a = record { rtol = r; atol = a }

  unfoldable pub default_tolerance : DataType → Tolerance d.V
  default_tolerance r_16f = tolerance (d.literal "1e-2") (d.literal "1e-3")
  default_tolerance r_16bf = tolerance (d.literal "1e-2") (d.literal "1e-3")
  default_tolerance r_64f = tolerance (d.literal "1e-12") (d.literal "1e-13")
  default_tolerance c_64f = tolerance (d.literal "1e-12") (d.literal "1e-13")
  default_tolerance _ = tolerance (d.literal "1e-5") (d.literal "1e-6")

  unfoldable pub relaxed_tolerance : DataType → Tolerance d.V
  relaxed_tolerance r_64f = tolerance (d.literal "1e-10") (d.literal "1e-11")
  relaxed_tolerance c_64f = tolerance (d.literal "1e-10") (d.literal "1e-11")
  relaxed_tolerance _ = tolerance (d.literal "1e-3") (d.literal "1e-4")

  -- std::max, which keeps the first unless it is below the second.
  abbrev pub larger : d.V → d.V → d.V
  larger a b = if d.le a b && not (d.le b a) then b else a

  abbrev pub off_by : Tolerance d.V → d.V → d.V → d.V
  off_by tol got want =
      d.over (d.magnitude (d.minus got want))
        (d.plus tol.atol (d.times tol.rtol (d.magnitude want)))

  unfoldable pub worst_of : Tolerance d.V → d.V → List d.V → List d.V → d.V
  worst_of tol worst (got ∷ actual) (want ∷ ref) =
      let rest = worst_of tol (larger worst (off_by tol got want)) actual ref in
      if d.is_finite got then rest else d.infinity
  worst_of tol worst _ _ = worst

  unfoldable pub max_error_ratio : List d.V → List d.V → Tolerance d.V → d.V
  unfolding worst_of
  max_error_ratio actual ref tol =
      if length actual == length ref then worst_of tol d.zero actual ref else d.infinity
