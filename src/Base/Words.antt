-- ===== src/Base/Words.antt =====
-- Two's complement words and their bytes, low byte first.
use Prim.Native.Nat.{ℕ, zero, suc, ◌+◌, ◌-◌, ◌*◌, ◌/◌, ◌%◌, ◌^◌, ◌≤◌}
use mathlib.Core.Path.{◌≡◌}
use mathlib.Core.List.{List, [], ◌∷◌}
use native.Mathlib.Omega.{arith}
use cwapper.Base.Tests.{ltb, if◌then◌else◌}
use cwapper.Base.Int.{ℤ, pos, negsuc, ◌≤ℤ◌}

abbrev pub int32_max : ℕ
int32_max = 2147483647

-- The pattern of an `int32_t`, and the integer that a pattern stands for.
abbrev pub pattern32 : ℤ → ℕ
pattern32 (pos n) = n % 2 ^ 32
pattern32 (negsuc n) = (2 ^ 32 - 1) - n % 2 ^ 32

abbrev pub signed32 : ℕ → ℤ
signed32 w = if ltb w (2 ^ 31) then pos w else negsuc (2 ^ 32 - w - 1)

abbrev pub pattern64 : ℤ → ℕ
pattern64 (pos n) = n % 2 ^ 64
pattern64 (negsuc n) = (2 ^ 64 - 1) - n % 2 ^ 64

abbrev pub signed64 : ℕ → ℤ
signed64 w = if ltb w (2 ^ 63) then pos w else negsuc (2 ^ 64 - w - 1)

-- static_cast<std::int32_t>: the low 32 bits.
unfoldable pub to_i32 : ℤ → ℤ
to_i32 z = signed32 (pattern32 z)

-- The int32_t that has the low 32 bits of a count.
abbrev pub to_word : ℕ → ℤ
to_word n = to_i32 (pos n)

-- The value of a 64-bit variable that is given `z`.
unfoldable pub to_i64 : ℤ → ℤ
to_i64 z = signed64 (pattern64 z)

pub to_i64-lower : (z : ℤ) → negsuc 9223372036854775807 ≤ℤ to_i64 z
unfolding to_i64
to_i64-lower z = ground arith

-- The cast keeps every value of the range of `int32_t`.
pub to_i32-in_range : (z : ℤ) → negsuc int32_max ≤ℤ z → z ≤ℤ pos int32_max → to_i32 z ≡ z
unfolding to_i32
to_i32-in_range z lo hi = ground arith

pub to_word-in_range : (n : ℕ) → n ≤ int32_max → to_word n ≡ pos n
to_word-in_range n h = to_i32-in_range (pos n) (ground arith) (ground arith)

-- The value of bytes, low byte first, and a word as so many bytes.
abbrev pub of_bytes : List ℕ → ℕ
of_bytes [] = 0
of_bytes (b ∷ bs) = b + 256 * of_bytes bs

abbrev pub to_bytes : ℕ → ℕ → List ℕ
to_bytes zero w = []
to_bytes (suc n) w = (w % 256) ∷ to_bytes n (w / 256)
