-- ===== src/Market/Text.antt =====
-- The parts of the C library that ctest/mmio.hpp reads a line with: std::string::find, and sscanf with
-- the conversions %lld and %lf. A line is its bytes. Numbers beyond a `long long` are undefined in
-- sscanf, and are read here as they stand.
use Prim.Native.Char.{code}
use cwapper.Base.{
  ℕ, ◌+◌, ◌-◌, ◌*◌, zero, suc, ℤ, pos, negsuc, Bool, true, false, ◌&&◌, ◌||◌, List, [], ◌∷◌, String,
  Option, none, some, ◌==◌, leb, if◌then◌else◌,
}
use cwapper.Floats.{Doubles}

abbrev pub codes : String → List ℕ
codes String.[] = []
codes (String.◌∷◌ c s) = code c ∷ codes s

unfoldable pub starts_with : List ℕ → List ℕ → Bool
starts_with [] line = true
starts_with (w ∷ ws) [] = false
starts_with (w ∷ ws) (c ∷ cs) = w == c && starts_with ws cs

-- line.find(word) != npos
unfoldable pub contains : List ℕ → List ℕ → Bool
unfolding starts_with
contains word [] = starts_with word []
contains word (c ∷ cs) = starts_with word (c ∷ cs) || contains word cs

abbrev is_space : ℕ → Bool
is_space c = c == 32 || (leb 9 c && leb c 13)

abbrev is_digit : ℕ → Bool
is_digit c = leb b'0' c && leb c b'9'

unfoldable pub skip_spaces : List ℕ → List ℕ
skip_spaces [] = []
skip_spaces (c ∷ cs) = let rest = skip_spaces cs in if is_space c then rest else c ∷ cs

unfoldable pub read_digits : ℕ → List ℕ → ℕ × List ℕ
read_digits n [] = (n, [])
read_digits n (c ∷ cs) =
    let rest = read_digits (n * 10 + (c - b'0')) cs in if is_digit c then rest else (n, c ∷ cs)

-- One digit at least.
unfoldable pub read_nat : List ℕ → Option (ℕ × List ℕ)
unfolding read_digits
read_nat [] = none
read_nat (c ∷ cs) = if is_digit c then some (read_digits 0 (c ∷ cs)) else none

abbrev minus : ℕ → ℤ
minus zero = pos 0
minus (suc n) = negsuc n

abbrev signed_by : (ℕ → ℤ) → Option (ℕ × List ℕ) → Option (ℤ × List ℕ)
signed_by sign none = none
signed_by sign (some (n, rest)) = some (sign n, rest)

-- The text from its first byte that is no space on.
abbrev read_signed : List ℕ → Option (ℤ × List ℕ)
read_signed [] = none
read_signed (c ∷ cs) =
    if c == b'-'
    then signed_by minus (read_nat cs)
    else if c == b'+'
    then signed_by pos (read_nat cs)
    else signed_by pos (read_nat (c ∷ cs))

-- %lld
unfoldable pub read_int : List ℕ → Option (ℤ × List ℕ)
unfolding read_nat skip_spaces
read_int cs = read_signed (skip_spaces cs)

-- sscanf(line, "%lld %lld", ...) == 2, with what is left of the line.
unfoldable pub read_two : List ℕ → Option (ℤ × ℤ × List ℕ)
unfolding read_int
read_two line = elim (read_int line) [
  | none ↦ none
  | some (a, rest) ↦ elim (read_int rest) [ none ↦ none | some (b, tail) ↦ some (a, b, tail) ]
]

-- sscanf(line, "%lld %lld %lld", ...) == 3
unfoldable pub read_three : List ℕ → Option (ℤ × ℤ × ℤ)
unfolding read_two
read_three line = elim (read_two line) [
  | none ↦ none
  | some (a, b, rest) ↦ elim (read_int rest) [ none ↦ none | some (c, tail) ↦ some (a, b, c) ]
]

module _ (d : Doubles) where
  abbrev valued : ℤ → ℤ → Option d.V → Option (ℤ × ℤ × d.V)
  valued r c none = none
  valued r c (some v) = some (r, c, v)

  -- The indices and the value of an entry line, with the value 1 in a pattern file.
  unfoldable pub read_entry : Bool → List ℕ → Option (ℤ × ℤ × d.V)
  unfolding read_two
  read_entry pattern line = elim (read_two line) [
    | none ↦ none
    | some (r, c, rest) ↦
        if pattern then some (r, c, d.one) else valued r c (d.read (skip_spaces rest))
  ]
