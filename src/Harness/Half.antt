-- ===== src/Harness/Half.antt =====
-- The conversions between float and the two half types (ctest/sweep.hpp), on the patterns of the values.
-- A shift is a quotient or a product by a power of two and a mask a remainder; the parts that the code
-- joins by `|` stand at different bits, so they are added.
pub mod Nearest
pub mod Subnormal
use cwapper.Base.{
  ℕ, zero, suc, ◌+◌, ◌-◌, ◌*◌, ◌/◌, ◌%◌, ◌^◌, Bool, true, false, ◌&&◌, ◌||◌, ◌==◌, ltb, leb,
  if◌then◌else◌,
}

unfoldable pub float_to_bf16 : ℕ → ℕ
float_to_bf16 bits = ((bits + (0x7fff + (bits / 2 ^ 16) % 2)) % 2 ^ 32) / 2 ^ 16 % 2 ^ 16

unfoldable pub bf16_to_float : ℕ → ℕ
bf16_to_float h = h * 2 ^ 16

-- Whether the discarded bits `rem` round `sub` up: above half a unit, or at half a unit to the even side.
abbrev pub rounding : ℕ → ℕ → ℕ → ℕ
rounding sub rem half = if ltb half rem || (rem == half && sub % 2 == 1) then 1 else 0

-- The subnormal result. The field of the exponent is `exp` + 112.
abbrev pub subnormal : ℕ → ℕ → ℕ → ℕ
subnormal sign field mantissa =
    let shift = 126 - field in
    let mant = 2 ^ 23 + mantissa in
    sign + (mant / 2 ^ shift + rounding (mant / 2 ^ shift) (mant % 2 ^ shift) (2 ^ (shift - 1)))

-- From the sign bit, in its new place, the field of the exponent and the mantissa.
abbrev pub narrow : ℕ → ℕ → ℕ → ℕ
narrow sign field mant =
    if ltb field 102
    then sign
    else if leb field 112
    then subnormal sign field mant
    else if leb 143 field
    then sign + 0x7c00
    else (sign
        + (field - 112) * 2 ^ 10
        + mant / 2 ^ 13
        + rounding (mant / 2 ^ 13) (mant % 2 ^ 13) (2 ^ 12))
      % 2 ^ 16

unfoldable pub float_to_fp16 : ℕ → ℕ
float_to_fp16 x = narrow ((x / 2 ^ 31) % 2 * 2 ^ 15) ((x / 2 ^ 23) % 2 ^ 8) (x % 2 ^ 23)

-- The do loop that normalises a subnormal: the first argument is fuel, ten rounds are enough. The
-- second counts the rounds, of which `e` is one less.
unfoldable pub normalise : ℕ → ℕ → ℕ → ℕ × ℕ
normalise zero rounds m = (rounds, m)
normalise (suc fuel) rounds m =
    let more = normalise fuel (suc rounds) (2 * m) in
    if (2 * m) / 2 ^ 10 % 2 == 0 then more else (suc rounds, 2 * m)

abbrev pub widen : ℕ → ℕ → ℕ → ℕ
widen sign exp mant =
    let (rounds, m) = normalise 10 0 mant in
    if exp == 0
    then (if mant == 0 then sign else sign + (113 - rounds) * 2 ^ 23 + m % 2 ^ 10 * 2 ^ 13)
    else if exp == 31
    then sign + 0x7f800000 + mant * 2 ^ 13
    else sign + (exp + 112) * 2 ^ 23 + mant * 2 ^ 13

unfoldable pub fp16_to_float : ℕ → ℕ
unfolding normalise
fp16_to_float h = widen ((h / 2 ^ 15) % 2 * 2 ^ 31) ((h / 2 ^ 10) % 2 ^ 5) (h % 2 ^ 10)
