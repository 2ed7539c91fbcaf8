-- ===== src/Spgemm/Work.antt =====
-- The work estimate of flagsparseSpGEMM_workEstimation of src/ops/spgemm.cpp.
use cwapper.Base.{
  ℕ, suc, ◌≡◌, refl, sym, ap, subst, arith, Bool, true, false, ◌||◌, ℤ, pos, ◌+ℤ◌, ◌≤ℤ◌, max_ℤ,
  List, [], ◌∷◌, All, lt_ℤ, le_ℤ, if◌then◌else◌, map, int32_max, to_i32, pos_part,
}
use cwapper.Types.{Status, not_supported}
use cwapper.Exec.{Result, ok, err}
use cwapper.Meta.{slice}
use cwapper.Spgemm.Host.{Estimate, row_work, rows_work, row_length, after_row, with_row, put_at}

-- The products of a row of A with these columns, on top of `total`.
abbrev pub products : List ℤ → ℤ → List ℤ → ℤ
products b_off total [] = total
products b_off total (k ∷ ks) = products b_off (total +ℤ row_length b_off k) ks

-- The columns of each row of A.
abbrev pub row_columns : List ℤ → List ℤ → List (List ℤ)
row_columns (begin ∷ end ∷ rest) a_col = slice begin end a_col ∷ row_columns (end ∷ rest) a_col
row_columns _ a_col = []

-- What an estimate with `largest` as its largest total says of a row: every column has a row of B, and
-- the products are at most the largest total and fit an int32.
pub record IsServed (b_rows : ℤ) (b_off : List ℤ) (largest : ℤ) (ks : List ℤ) : Type 0 where
  pub within : All (λ (k : ℤ). (pos 0 ≤ℤ k) × (lt_ℤ k b_rows ≡ true)) ks
  pub fits : products b_off (pos 0) ks ≤ℤ pos int32_max
  pub top : products b_off (pos 0) ks ≤ℤ largest

passed :
    {A : Type 0} (b : Bool) (st : Status) (n : Result A) (a : A)
    → (if b then err st else n) ≡ ok a
    → (b ≡ false) × (n ≡ ok a)
passed true st n a h = cc
passed false st n a h = (refl, h)

ok_inj : {A : Type 0} (a b : A) → ok a ≡ ok b → a ≡ b
ok_inj a b h = cc

in_range :
    (k rows : ℤ) → (lt_ℤ k (pos 0) || le_ℤ rows k) ≡ false → (pos 0 ≤ℤ k) × (lt_ℤ k rows ≡ true)
in_range k rows h = ground arith

row_work-products :
    (b_rows : ℤ) (b_off : List ℤ) (p : ℕ) (running : ℤ) (pref ks : List ℤ) (r : ℤ × List ℤ)
    → row_work b_rows b_off p running pref ks ≡ ok r
    → All (λ (k : ℤ). (pos 0 ≤ℤ k) × (lt_ℤ k b_rows ≡ true)) ks × (r.0 ≡ products b_off running ks)
unfolding row_work
row_work-products b_rows b_off p running pref [] r h = (tt, ap (λ v. v.0) (sym (ok_inj _ r h)))
row_work-products b_rows b_off p running pref (k ∷ ks) r h =
    let (good, next) = passed _ _ _ r h in
    let (within, total) =
      row_work-products b_rows b_off (suc p) (running +ℤ row_length b_off k)
        (put_at p (to_i32 running) pref) ks r next in
    ((in_range k b_rows good, within), total)

-- A round that went well: the row's total, and the estimate of the rows behind it.
record IsRound (longest : ℤ) (row : Result (ℤ × List ℤ)) (next : List ℤ → ℤ → Result Estimate)
    (e : Estimate) : Type 0 where
  total : ℤ
  pref : List ℤ
  tail : Estimate
  made : row ≡ ok (total, pref)
  fits : total ≤ℤ pos int32_max
  went_on : next pref (max_ℤ longest total) ≡ ok tail
  result : e ≡ record tail { rw = to_i32 total ∷ tail.rw }

with_row-ok :
    (total : ℤ) (n : Result Estimate) (e : Estimate)
    → with_row total n ≡ ok e
    → (t : Estimate) × (n ≡ ok t) × (e ≡ record t { rw = to_i32 total ∷ t.rw })
with_row-ok total (ok t) e h = (t, refl, sym (ok_inj _ e h))
with_row-ok total (err st) e h = cc

after_row-IsRound :
    (longest : ℤ) (row : Result (ℤ × List ℤ)) (next : List ℤ → ℤ → Result Estimate) (e : Estimate)
    → after_row longest row next ≡ ok e
    → IsRound longest row next e
after_row-IsRound longest (err st) next e h = cc
after_row-IsRound longest (ok (total, pref)) next e h =
    let (low, rest) =
      passed (lt_ℤ (pos int32_max) total) not_supported
        (with_row total (next pref (max_ℤ longest total))) e h in
    let (t, went, same) = with_row-ok total (next pref (max_ℤ longest total)) e rest in
    record {
      total = total;
      pref = pref;
      tail = t;
      made = refl;
      fits = ground arith;
      went_on = went;
      result = same;
    }

le_max : (a b c : ℤ) → max_ℤ a b ≤ℤ c → (a ≤ℤ c) × (b ≤ℤ c)
le_max a b c h = ground arith

le_refl : (a : ℤ) → a ≤ℤ a
le_refl a = omega arith

-- The host's totals for rows with these columns.
abbrev pub totals : List ℤ → List (List ℤ) → List ℤ
totals b_off rows = map (λ ks. to_i32 (products b_off (pos 0) ks)) rows

Serves : ℤ → List ℤ → ℤ → List (List ℤ) → Estimate → Type 0
Serves b_rows b_off longest rows e =
    (e.rw ≡ totals b_off rows)
    × All (IsServed b_rows b_off e.max_work) rows
    × (longest ≤ℤ e.max_work)

round-Serves :
    (b_rows : ℤ) (b_off : List ℤ) (longest : ℤ) (ks : List ℤ) (rows : List (List ℤ)) (total : ℤ)
    (t e : Estimate)
    → total ≡ products b_off (pos 0) ks
    → All (λ (k : ℤ). (pos 0 ≤ℤ k) × (lt_ℤ k b_rows ≡ true)) ks
    → total ≤ℤ pos int32_max
    → Serves b_rows b_off (max_ℤ longest total) rows t
    → e ≡ record t { rw = to_i32 total ∷ t.rw }
    → Serves b_rows b_off longest (ks ∷ rows) e
unfolding Serves
round-Serves b_rows b_off longest ks rows total t e same within fits rest result =
    let (low, high) = le_max longest total t.max_work rest.2 in
    subst (Serves b_rows b_off longest (ks ∷ rows)) (sym result) (
      let head = ap to_i32 same in
      let tail = rest.0 in
      (
        cc,
        (
          record {
            within = within;
            fits = subst (λ v. v ≤ℤ pos int32_max) same fits;
            top = subst (λ v. v ≤ℤ t.max_work) same high;
          },
          rest.1,
        ),
        low,
      ))

none-Serves :
    (b_rows : ℤ) (b_off pref : List ℤ) (longest : ℤ) (e : Estimate)
    → ok (record { rw = []; a_pref = pref; max_work = longest }) ≡ ok e
    → Serves b_rows b_off longest [] e
unfolding Serves
none-Serves b_rows b_off pref longest e h =
    subst (Serves b_rows b_off longest []) (ok_inj _ e h) (refl, tt, le_refl longest)

rows_work-Serves :
    (b_rows : ℤ) (b_off a_col pref : List ℤ) (longest : ℤ) (off : List ℤ) (e : Estimate)
    → rows_work b_rows b_off a_col pref longest off ≡ ok e
    → Serves b_rows b_off longest (row_columns off a_col) e
unfolding rows_work
rows_work-Serves b_rows b_off a_col pref longest [] e h = none-Serves b_rows b_off pref longest e h
rows_work-Serves b_rows b_off a_col pref longest (begin ∷ []) e h =
    none-Serves b_rows b_off pref longest e h
rows_work-Serves b_rows b_off a_col pref longest (begin ∷ end ∷ rest) e h =
    let made = after_row-IsRound longest _ _ e h in
    let (within, total) =
      row_work-products b_rows b_off (pos_part begin) (pos 0) pref (slice begin end a_col)
        (made.total, made.pref) made.made in
    round-Serves b_rows b_off longest (slice begin end a_col) (row_columns (end ∷ rest) a_col)
      made.total made.tail e total within made.fits
      (rows_work-Serves b_rows b_off a_col made.pref (max_ℤ longest made.total) (end ∷ rest)
        made.tail made.went_on)
      made.result

-- The work estimate of the rows of A, where it succeeds: the total of each row is the number of its
-- scalar products, the lengths of the rows of B at its columns, summed, as an int32; every column has
-- a row of B, every sum fits an int32, and none exceeds the largest total, by which the bucket is
-- chosen.
pub rows_work-IsServed :
    (b_rows : ℤ) (b_off a_col pref off : List ℤ) (e : Estimate)
    → rows_work b_rows b_off a_col pref (pos 0) off ≡ ok e
    → (e.rw ≡ totals b_off (row_columns off a_col))
      × All (IsServed b_rows b_off e.max_work) (row_columns off a_col)
unfolding Serves
rows_work-IsServed b_rows b_off a_col pref off e h =
    let serves = rows_work-Serves b_rows b_off a_col pref (pos 0) off e h in (serves.0, serves.1)
