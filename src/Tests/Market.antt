-- ===== src/Tests/Market.antt =====
-- A Matrix Market file read at concrete values, which are natural numbers here.
use mathlib.Core.List.{Perm}
use mathlib.Core.List.Perm as Perms
use cwapper.Base.{
  to_i64, to_i32, ◌-ℤ◌, ℕ, ◌+◌, ◌-◌, ◌*◌, ◌/◌, refl, arith, inr, pos, Bool, true, List, [], ◌∷◌,
  Option, none, some, ◌==◌, ltb, leb,
}
use cwapper.Floats.{Doubles}
use cwapper.Meta.{accumulate}
use cwapper.Market.{
  Csr, Entry, read_csr, read_dimensions, read_body, read_entries, finish, build, merge, absorb,
  sort_entries, insert_entry, tally, push, parse_entry, in_range, banner_of,
}
use cwapper.Market.Text.{
  codes, contains, starts_with, read_two, read_three, read_entry, read_int, read_nat, read_digits,
  skip_spaces,
}
use cwapper.Market.Built.{IsCanonical}
use cwapper.Market.Reading.{IsBounded, read_csr-IsCanonical}

abbrev value_of : Option (ℕ × List ℕ) → Option ℕ
value_of none = none
value_of (some (n, rest)) = some n

-- The natural numbers in the place of the doubles.
abbrev pub naturals : Doubles
naturals = record {
  V = ℕ;
  zero = 0;
  one = 1;
  plus = λ a b. a + b;
  minus = λ a b. a - b;
  times = λ a b. a * b;
  over = λ a b. a / b;
  negate = λ a. a;
  magnitude = λ a. a;
  is_zero = λ a. a == 0;
  le = λ a b. leb a b;
  read = λ cs. value_of (read_nat cs);
  literal = λ s. 0;
  whole = λ n. n;
  infinity = 1000000;
  is_finite = λ n. true;
}

-- The lower half of a symmetric matrix, with a cell that stands twice.
abbrev symmetric_file : List (List ℕ)
symmetric_file =
    codes "% a comment" ∷ codes "2 2 3" ∷ codes "2 1 5" ∷ codes "1 1 3" ∷ codes "2 1 4" ∷ []

abbrev banner : List ℕ
banner = codes "%%MatrixMarket matrix coordinate real symmetric"

abbrev allocates : ℕ → Bool
allocates n = ltb n 9223372036854775808

abbrev read_back : Csr ℕ
read_back = record {
  rows = pos 2;
  cols = pos 2;
  nnz = pos 3;
  indptr = pos 0 ∷ pos 2 ∷ pos 3 ∷ [];
  indices = 0 ∷ 1 ∷ 0 ∷ [];
  values = 3 ∷ 9 ∷ 9 ∷ [];
  is_ok = true;
  error = "";
}

allocates-IsBounded : IsBounded allocates
allocates-IsBounded n h = ground arith

read_csr-IsCanonical_example : IsCanonical read_back
unfolding read_csr read_dimensions read_body read_entries finish build merge absorb sort_entries
    insert_entry tally push parse_entry in_range banner_of contains starts_with read_two read_three
    read_entry read_int read_nat read_digits skip_spaces accumulate to_i64 to_i32 ◌-ℤ◌
read_csr-IsCanonical_example =
    read_csr-IsCanonical naturals allocates allocates-IsBounded banner symmetric_file read_back refl
      refl (inr refl) (ground arith)

abbrev pushed_entries : List (Entry ℕ)
pushed_entries =
    record { r = 1; c = 0; v = 5 }
    ∷ record { r = 0; c = 1; v = 6 }
    ∷ record { r = 1; c = 0; v = 4 }
    ∷ []

-- In the order of the cells, with the two values of one cell the other way round.
abbrev sorted_entries : List (Entry ℕ)
sorted_entries =
    record { r = 0; c = 1; v = 6 }
    ∷ record { r = 1; c = 0; v = 4 }
    ∷ record { r = 1; c = 0; v = 5 }
    ∷ []
