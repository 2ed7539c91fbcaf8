-- ===== src/Market/Lines.antt =====
-- The entry lines of ctest/mmio.hpp: what every list of entries that they give has.
use cwapper.Base.{
  ℕ, zero, suc, ◌≡◌, arith, ℤ, pos, ◌-ℤ◌, lt_ℤ, Bool, true, List, [], ◌∷◌, Option, none, some,
  Bool-cases, le_ℤ, ◌||◌, inl, inr, to_i32,
}
use cwapper.Floats.{Doubles}
use cwapper.Market.{
  Entry, Parsed, good, bad, Scan, scanned, failed, Banner, pushed, push, in_range, in_bounds,
  parse_entry, read_entries,
}
use cwapper.Market.Text.{read_entry}

module _ {V : Type 0} where
  abbrev pub Scanned : (List (Entry V) → Type 0) → Scan V → Type 0
  Scanned P (scanned es) = P es
  Scanned P (failed text) = Unit {0}

  abbrev Parses : (Entry V → Type 0) → Parsed V → Type 0
  Parses Q (good e) = Q e
  Parses Q (bad text) = Unit {0}

  pushed-Scanned :
      (P : List (Entry V) → Type 0) (Q : Entry V → Type 0)
      (add : Entry V → List (Entry V) → List (Entry V)) (p : Parsed V) (rest : Scan V)
      → ((e : Entry V) (es : List (Entry V)) → Q e → P es → P (add e es))
      → Parses Q p
      → Scanned P rest
      → Scanned P (pushed add p rest)
  pushed-Scanned P Q add (bad text) rest step h k = tt
  pushed-Scanned P Q add (good e) (failed text) step h k = tt
  pushed-Scanned P Q add (good e) (scanned es) step h k = step e es h k

  -- Row and column within the dimensions of the file.
  abbrev pub IsWithin : ℤ → ℤ → Entry V → Type 0
  IsWithin m n e = (lt_ℤ (pos e.r) m ≡ true) × (lt_ℤ (pos e.c) n ≡ true)

  in_range-IsWithin : (m n r c : ℤ) (v : V) → Parses (IsWithin m n) (in_range m n r c v)
  unfolding in_range
  in_range-IsWithin m n r c v =
      elim (Bool-cases (lt_ℤ r (pos 0) || lt_ℤ c (pos 0) || le_ℤ m r || le_ℤ n c)) [
        | inl out ↦ rw (out) tt
        | inr inside ↦ rw (inside) (ground arith, ground arith)
      ]

  in_bounds-IsWithin : (m n : ℤ) (o : Option (ℤ × ℤ × V)) → Parses (IsWithin m n) (in_bounds m n o)
  in_bounds-IsWithin m n none = tt
  in_bounds-IsWithin m n (some (r, c, v)) =
      in_range-IsWithin m n (to_i32 (r -ℤ pos 1)) (to_i32 (c -ℤ pos 1)) v

module _ (d : Doubles) where
  parse_entry-IsWithin :
      (pattern : Bool) (m n : ℤ) (line : List ℕ)
      → Parses (IsWithin m n) (parse_entry d pattern m n line)
  unfolding parse_entry
  parse_entry-IsWithin pattern m n line = in_bounds-IsWithin m n (read_entry d pattern line)

  pub read_entries-Scanned :
      (P : List (Entry d.V) → Type 0) (b : Banner) (m n : ℤ) (k : ℕ) (lines : List (List ℕ))
      → P []
      → ((e : Entry d.V) (es : List (Entry d.V))
          → IsWithin m n e
          → P es
          → P (push d b.symmetric b.skew e es))
      → Scanned P (read_entries d b m n k lines)
  unfolding read_entries
  read_entries-Scanned P b m n zero lines start step = start
  read_entries-Scanned P b m n (suc k) [] start step = tt
  read_entries-Scanned P b m n (suc k) (line ∷ lines) start step =
      pushed-Scanned P (IsWithin m n) (push d b.symmetric b.skew) (parse_entry d b.pattern m n line)
        (read_entries d b m n k lines) step (parse_entry-IsWithin b.pattern m n line)
        (read_entries-Scanned P b m n k lines start step)
