-- ===== src/Market.antt =====
-- ctest/mmio.hpp, and tools/mmio.hpp, which is the same text: the Matrix Market reader.
-- `Text` has the parts of the C library that it reads a line with. A file is the lines that the calls
-- of fgets return; an allocation of so many bytes succeeds where `allocates` says so.
pub mod Built
pub mod Canonical
pub mod Lines
pub mod Order
pub mod Reading
pub mod Rows
pub mod Text
pub mod Totals
use cwapper.Base.{
  ℕ, zero, suc, ◌+◌, ◌*◌, ◌%◌, ◌^◌, ℤ, pos, ◌-ℤ◌, Bool, true, false, not, ◌&&◌, ◌||◌, List, [], ◌∷◌,
  map, String, Option, none, some, length, replicate, ◌==◌, ltb, lt_ℤ, le_ℤ, pos_part, to_i32,
  to_word, to_i64, pattern64, if◌then◌else◌,
}
use cwapper.Floats.{Doubles}
use cwapper.Meta.{increment, accumulate}
use Text.{codes, starts_with, contains, read_two, read_three, read_entry}

pub record Csr (V : Type 0) : Type 0 where
  pub rows : ℤ
  pub cols : ℤ
  pub nnz : ℤ
  pub indptr : List ℤ
  pub indices : List ℕ
  pub values : List V
  pub is_ok : Bool
  pub error : String

-- An entry of the list that is sorted. Its row and column have passed the range test, so they are not
-- negative.
pub record Entry (V : Type 0) : Type 0 where
  pub r : ℕ
  pub c : ℕ
  pub v : V

-- What the call does: it throws, where an allocation fails, or returns.
pub data Outcome (V : Type 0) : Type 0 where
  threw : Outcome V
  returned : Csr V → Outcome V

abbrev pub new_csr : {V : Type 0} → Csr V
new_csr = record {
  rows = pos 0;
  cols = pos 0;
  nnz = pos 0;
  indptr = [];
  indices = [];
  values = [];
  is_ok = false;
  error = "";
}

-- An entry line that was read, or the text of the error.
pub data Parsed (V : Type 0) : Type 0 where
  good : Entry V → Parsed V
  bad : String → Parsed V

-- The entry lines together.
pub data Scan (V : Type 0) : Type 0 where
  scanned : List (Entry V) → Scan V
  failed : String → Scan V

-- What the banner says.
pub record Banner : Type 0 where
  pub pattern : Bool
  pub symmetric : Bool
  pub skew : Bool

unfoldable pub banner_of : List ℕ → Banner
banner_of line = record {
  pattern = contains (codes "pattern") line;
  symmetric = contains (codes "symmetric") line || contains (codes "hermitian") line;
  skew = contains (codes "skew") line;
}

module _ {V : Type 0} where
  -- The range test on the zero-based indices.
  unfoldable pub in_range : ℤ → ℤ → ℤ → ℤ → V → Parsed V
  in_range m n r c v =
      if lt_ℤ r (pos 0) || lt_ℤ c (pos 0) || le_ℤ m r || le_ℤ n c
      then bad "index out of range"
      else good (record { r = pos_part r; c = pos_part c; v = v })

  -- Zero-based, as int32.
  abbrev pub in_bounds : ℤ → ℤ → Option (ℤ × ℤ × V) → Parsed V
  in_bounds m n none = bad "bad entry"
  in_bounds m n (some (r, c, v)) = in_range m n (to_i32 (r -ℤ pos 1)) (to_i32 (c -ℤ pos 1)) v

  -- The first error of the lines, or the entries of a line before those of the later ones.
  abbrev pushed : (Entry V → List (Entry V) → List (Entry V)) → Parsed V → Scan V → Scan V
  pushed add (bad text) rest = failed text
  pushed add (good e) (failed text) = failed text
  pushed add (good e) (scanned es) = scanned (add e es)

  -- The comparison that std::sort is given.
  abbrev pub before : Entry V → Entry V → Bool
  before a b = if not (a.r == b.r) then ltb a.r b.r else ltb a.c b.c

  -- std::sort, which leaves open how entries of one cell follow each other: here they keep the order of
  -- the file, one of the orders that it may leave.
  unfoldable pub insert_entry : Entry V → List (Entry V) → List (Entry V)
  insert_entry e [] = e ∷ []
  insert_entry e (x ∷ xs) =
      let rest = insert_entry e xs in if before x e then x ∷ rest else e ∷ x ∷ xs

  unfoldable pub sort_entries : List (Entry V) → List (Entry V)
  unfolding insert_entry
  sort_entries [] = []
  sort_entries (e ∷ es) = insert_entry e (sort_entries es)

  -- per_row[e.r]++ for each entry that is kept. A row past the end, which the mirror of an entry of a
  -- matrix that is not square can have, changes nothing here; the code writes beyond the vector.
  unfoldable pub tally : List ℕ → List (Entry V) → List ℕ
  unfolding increment
  tally counts [] = counts
  tally counts (e ∷ es) = tally (increment e.r counts) es

module _ (d : Doubles) where
  -- The loop over the sorted entries: one that repeats the cell before it adds to the value kept last.
  unfoldable pub absorb : Entry d.V → List (Entry d.V) → List (Entry d.V)
  absorb e [] = e ∷ []
  absorb e (x ∷ xs) =
      let added = absorb (record e { v = d.plus e.v x.v }) xs in
      let next = e ∷ absorb x xs in if e.r == x.r && e.c == x.c then added else next

  unfoldable pub merge : List (Entry d.V) → List (Entry d.V)
  unfolding absorb
  merge [] = []
  merge (e ∷ es) = absorb e es

  -- coo.push_back of an entry and of its mirror.
  unfoldable pub push : Bool → Bool → Entry d.V → List (Entry d.V) → List (Entry d.V)
  push symmetric skew e rest =
      if symmetric && not (e.r == e.c)
      then e ∷ record { r = e.c; c = e.r; v = if skew then d.negate e.v else e.v } ∷ rest
      else e ∷ rest

  -- The body of the loop over the lines, before its push_back.
  unfoldable pub parse_entry : Bool → ℤ → ℤ → List ℕ → Parsed d.V
  parse_entry pattern m n line = in_bounds m n (read_entry d pattern line)

  -- The loop, for so many entries: the entries in the order of the pushes.
  unfoldable pub read_entries : Banner → ℤ → ℤ → ℕ → List (List ℕ) → Scan d.V
  unfolding push parse_entry
  read_entries b m n zero lines = scanned []
  read_entries b m n (suc k) [] = failed "truncated"
  read_entries b m n (suc k) (line ∷ lines) =
      pushed (push b.symmetric b.skew) (parse_entry b.pattern m n line) (read_entries b m n k lines)

  -- The arrays of the sorted entries. per_row and indptr are of int32_t: an offset is the low 32 bits of
  -- the running sum of the counts. (Past 2 ^ 31 - 1 the sums overflow, which C++ leaves undefined.)
  unfoldable pub build : ℕ → ℤ → List (Entry d.V) → Csr d.V
  unfolding merge sort_entries tally
  build rows cols coo =
      let kept = merge (sort_entries coo) in
      record {
        rows = pos rows;
        cols = cols;
        nnz = pos (length kept);
        indptr = map to_word (0 ∷ accumulate 0 (tally (replicate rows 0) kept));
        indices = map (λ e. e.c) kept;
        values = map (λ e. e.v) kept;
        is_ok = true;
        error = "";
      }

module _ (d : Doubles) (allocates : ℕ → Bool) where
  abbrev fails : ℤ → ℤ → String → Outcome d.V
  fails m n text = returned (record new_csr { rows = m; cols = n; error = text })

  -- The vectors of the CSR arrays, of 4, 8 and 4 bytes an element, and of the row counts.
  abbrev room_for : ℤ → ℕ → Bool
  room_for m size =
      allocates (4 * ((pattern64 m + 1) % 2 ^ 64))
      && allocates (4 * size)
      && allocates (8 * size)
      && allocates (4 * pattern64 m)

  unfoldable pub finish : ℤ → ℤ → Scan d.V → Outcome d.V
  unfolding build
  finish m n (failed text) = fails m n text
  finish m n (scanned coo) =
      if room_for m (length coo) then returned (build d (pos_part m) n coo) else threw

  -- From the dimension line on. An entry of the list has 16 bytes.
  unfoldable pub read_body : Banner → ℤ → ℤ → ℤ → List (List ℕ) → Outcome d.V
  unfolding finish
  read_body b m n entries lines =
      if allocates (16 * ((pattern64 entries * (if b.symmetric then 2 else 1)) % 2 ^ 64))
      then finish m n (read_entries d b m n (pos_part entries) lines)
      else threw

  abbrev with_dimensions : Banner → Option (ℤ × ℤ × ℤ) → List (List ℕ) → Outcome d.V
  with_dimensions b none lines = returned (record new_csr { error = "bad dimension line" })
  with_dimensions b (some (m, n, entries)) lines =
      read_body b (to_i64 m) (to_i64 n) (to_i64 entries) lines

  -- The comment lines after the banner, which start with '%', and the dimension line.
  unfoldable pub read_dimensions : Banner → List (List ℕ) → Outcome d.V
  unfolding read_body
  read_dimensions b [] = returned (record new_csr { error = "no dimension line" })
  read_dimensions b (line ∷ lines) =
      let rest = read_dimensions b lines in
      if starts_with (codes "%") line then rest else with_dimensions b (read_three line) lines

  -- `none` where the file does not open.
  unfoldable pub read_csr : Option (List (List ℕ)) → Outcome d.V
  unfolding read_dimensions banner_of contains
  read_csr none = returned (record new_csr { error = "cannot open" })
  read_csr (some []) = returned (record new_csr { error = "empty file" })
  read_csr (some (line ∷ lines)) =
      if not (contains (codes "coordinate") line)
      then returned (record new_csr { error = "not a coordinate file" })
      else if contains (codes "complex") line
      then returned (record new_csr { error = "complex Matrix Market files are not read here" })
      else read_dimensions (banner_of line) lines
