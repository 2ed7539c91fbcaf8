-- ===== src/Spgemm/Sort.antt =====
-- The sort of the rows of C in flagsparseSpGEMM_copy of src/ops/spgemm.cpp.
use mathlib.Core.List.{Perm}
use mathlib.Core.List.Perm as Perms
use cwapper.Base.{
  take-drop, length-take, length-drop, take-append, drop-append, drop-add, ℕ, suc, ◌+◌, ◌-◌, ◌≡◌,
  refl, ap, ◌∙◌, subst, arith, Bool-cases, inl, inr, ℤ, pos, ◌≤ℤ◌, List, [], ◌∷◌, ◌++◌, map, length,
  take, drop, All, le_ℤ,
}
use cwapper.Meta.{accumulate}
use cwapper.Spgemm.Host.{Entry, insert_entry, sort_row, segment, sort_rows}
use cwapper.Spgemm.Offsets.{sum}

-- The columns do not fall along the row.
abbrev pub IsAscending : List Entry → Type 0
IsAscending [] = Unit {0}
IsAscending (e ∷ es) = All (λ (x : Entry). e.0 ≤ℤ x.0) es × IsAscending es

-- The entries row by row, for rows of these lengths.
abbrev pub rows_of : List ℕ → List Entry → List (List Entry)
rows_of [] es = []
rows_of (k ∷ ks) es = take k es ∷ rows_of ks (drop k es)

below-All :
    (a b : ℤ) (es : List Entry)
    → a ≤ℤ b
    → All (λ (x : Entry). b ≤ℤ x.0) es
    → All (λ (x : Entry). a ≤ℤ x.0) es
below-All a b [] h hs = tt
below-All a b (x ∷ xs) h hs = (ground arith, below-All a b xs h hs.1)

insert_entry-All :
    (a : ℤ) (e : Entry) (es : List Entry)
    → a ≤ℤ e.0
    → All (λ (x : Entry). a ≤ℤ x.0) es
    → All (λ (x : Entry). a ≤ℤ x.0) (insert_entry e es)
unfolding insert_entry
insert_entry-All a e [] h hs = (h, tt)
insert_entry-All a e (x ∷ xs) h hs = elim (Bool-cases (le_ℤ (e.0) (x.0))) [
  | inl low ↦ rw (low) (h, hs)
  | inr high ↦ rw (high) (hs.0, insert_entry-All a e xs h hs.1)
]

insert_entry-IsAscending :
    (e : Entry) (es : List Entry) → IsAscending es → IsAscending (insert_entry e es)
unfolding insert_entry
insert_entry-IsAscending e [] h = (tt, tt)
insert_entry-IsAscending e (x ∷ xs) h = elim (Bool-cases (le_ℤ (e.0) (x.0))) [
  | inl low ↦ rw (low) ((ground arith, below-All (e.0) (x.0) xs (ground arith) h.0), h)
  | inr high ↦
      rw (high) (insert_entry-All (x.0) e xs (ground arith) h.0, insert_entry-IsAscending e xs h.1)
]

insert_entry-Perm : (e : Entry) (es : List Entry) → Perm (insert_entry e es) (e ∷ es)
unfolding insert_entry
insert_entry-Perm e [] = Perms.refl (e ∷ [])
insert_entry-Perm e (x ∷ xs) = elim (Bool-cases (le_ℤ (e.0) (x.0))) [
  | inl low ↦ rw (low) (Perms.refl (e ∷ x ∷ xs))
  | inr high ↦ rw (high) (Perms.trans (Perms.cons x (insert_entry-Perm e xs)) (Perms.swap e x xs))
]

pub sort_row-IsAscending : (es : List Entry) → IsAscending (sort_row es)
unfolding sort_row
sort_row-IsAscending [] = tt
sort_row-IsAscending (e ∷ es) = insert_entry-IsAscending e (sort_row es) (sort_row-IsAscending es)

pub sort_row-Perm : (es : List Entry) → Perm (sort_row es) es
unfolding sort_row
sort_row-Perm [] = Perms.refl []
sort_row-Perm (e ∷ es) =
    Perms.trans (insert_entry-Perm e (sort_row es)) (Perms.cons e (sort_row-Perm es))

length-insert_entry : (e : Entry) (es : List Entry) → length (insert_entry e es) ≡ suc (length es)
unfolding insert_entry
length-insert_entry e [] = refl
length-insert_entry e (x ∷ xs) = elim (Bool-cases (le_ℤ (e.0) (x.0))) [
  | inl low ↦ rw (low) refl
  | inr high ↦ rw (high) (ap suc (length-insert_entry e xs))
]

length-sort_row : (es : List Entry) → length (sort_row es) ≡ length es
unfolding sort_row
length-sort_row [] = refl
length-sort_row (e ∷ es) = length-insert_entry e (sort_row es) ∙ ap suc (length-sort_row es)

-- The rows sorted one after the other, each cut off the front of what is left.
sorted_by : List ℕ → List Entry → List Entry
sorted_by [] es = []
sorted_by (k ∷ ks) es = sort_row (take k es) ++ sorted_by ks (drop k es)

segment_of : (a k : ℕ) (es : List Entry) → segment (pos a) (pos (a + k)) es ≡ take k (drop a es)
segment_of a k es = let same : (a + k) - a ≡ k = ground arith in ap (λ n. take n (drop a es)) same

sort_rows-sorted_by :
    (a : ℕ) (ks : List ℕ) (es : List Entry)
    → sort_rows es (map pos (a ∷ accumulate a ks)) ≡ sorted_by ks (drop a es)
unfolding sort_rows sorted_by accumulate
sort_rows-sorted_by a [] es = refl
sort_rows-sorted_by a (k ∷ ks) es =
    rw (segment_of a k es, sort_rows-sorted_by (a + k) ks es, drop-add a k es) refl

sorted_by-Perm : (ks : List ℕ) (es : List Entry) → length es ≡ sum ks → Perm (sorted_by ks es) es
unfolding sorted_by
sorted_by-Perm [] [] h = Perms.refl []
sorted_by-Perm [] (e ∷ es) h = ground arith
sorted_by-Perm (k ∷ ks) es h =
    subst (Perm (sort_row (take k es) ++ sorted_by ks (drop k es))) (take-drop k es) (
      Perms.append (sort_row-Perm (take k es))
        (sorted_by-Perm ks (drop k es) (length-drop k (sum ks) es h)))

sorted_by-IsAscending :
    (ks : List ℕ) (es : List Entry)
    → length es ≡ sum ks
    → All IsAscending (rows_of ks (sorted_by ks es))
unfolding sorted_by
sorted_by-IsAscending [] es h = tt
sorted_by-IsAscending (k ∷ ks) es h =
    let whole = length-sort_row (take k es) ∙ length-take k (sum ks) es h in
    let rest = sorted_by ks (drop k es) in
    rw
      (
        take-append k (sort_row (take k es)) rest whole,
        drop-append k (sort_row (take k es)) rest whole,
      )
      (
        sort_row-IsAscending (take k es),
        sorted_by-IsAscending ks (drop k es) (length-drop k (sum ks) es h),
      )

-- For entries as many as the rows of these lengths have together, and offsets as compute derives
-- them from the lengths: the sorted entries, columns with their values, are a permutation of the
-- entries read back, and within each row the columns ascend.
pub sort_rows-IsAscending :
    (ks : List ℕ) (es : List Entry)
    → length es ≡ sum ks
    → Perm (sort_rows es (map pos (0 ∷ accumulate 0 ks))) es
      × All IsAscending (rows_of ks (sort_rows es (map pos (0 ∷ accumulate 0 ks))))
sort_rows-IsAscending ks es h =
    rw (sort_rows-sorted_by 0 ks es) (sorted_by-Perm ks es h, sorted_by-IsAscending ks es h)
