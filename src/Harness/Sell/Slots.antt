-- ===== src/Harness/Sell/Slots.antt =====
-- The slots of a sliced-ELL matrix of ctest/common.cpp: where each stands, and what it holds.
use mathlib.Core.List.{append_assoc}
use cwapper.Harness.Packed.{map-to_word, get_or-map_pos}
use cwapper.Base.{
  int32_max, to_word, pos, pos_part, length-map, ℕ, zero, suc, ◌+◌, ◌-◌, ◌*◌, ◌/◌, ◌≡◌, ◌≤◌, ◌<◌,
  refl, sym, ap, subst, ◌∙◌, arith, ◌==◌, Bool-cases, inl, inr, negsuc, List, [], ◌∷◌, ◌++◌, map,
  length, length-append, get_or, max, table, length-table, get_or-table, get_or-append_left,
  get_or-append_right,
}
use cwapper.Floats.{Doubles}
use cwapper.Meta.{accumulate}
use cwapper.Harness.Matrix.{flatten}
use cwapper.Harness.Sell.{Slot, slot_of, lane_row, width, slice_slots, pack_sell}

module _ {A : Type 0} where
  -- Within a slice: the slot of a lane is at slot * size + lane.
  nested :
      (lo w size slot lane : ℕ) (f : ℕ → ℕ → A) (z : A)
      → slot < w
      → lane < size
      → get_or (flatten (table lo w (λ s. table 0 size (f s)))) (slot * size + lane) z
        ≡ f (lo + slot) lane
  nested lo zero size slot lane f z h lt = absurd (omega (arith, h))
  nested lo (suc w) size zero lane f z h lt =
      let first = table 0 size (f lo) in
      let later = flatten (table (suc lo) w (λ s. table 0 size (f s))) in
      let place : 0 * size + lane ≡ lane = grind arith in
      let zero_based : 0 + lane ≡ lane = ground arith in
      let this_slot : lo ≡ lo + 0 = ground arith in
      ap (λ p. get_or (first ++ later) p z) place
      ∙ get_or-append_left first later lane z (omega (arith, length-table 0 size (f lo), lt))
      ∙ get_or-table 0 size lane (f lo) z lt
      ∙ ap (f lo) zero_based
      ∙ ap (λ s. f s lane) this_slot
  nested lo (suc w) size (suc slot) lane f z h lt =
      let first = table 0 size (f lo) in
      let later = flatten (table (suc lo) w (λ s. table 0 size (f s))) in
      let size_of = length-table 0 size (f lo) in
      let place : suc slot * size + lane ≡ size + (slot * size + lane) = grind arith in
      let this_slot : suc lo + slot ≡ lo + suc slot = ground arith in
      ap (λ p. get_or (first ++ later) p z)
        (place ∙ ap (λ p. p + (slot * size + lane)) (sym size_of))
      ∙ get_or-append_right first later (slot * size + lane) z
      ∙ nested (suc lo) w size slot lane f z (omega (arith, h)) lt
      ∙ ap (λ s. f s lane) this_slot

  length-nested :
      (lo w size : ℕ) (f : ℕ → ℕ → A)
      → length (flatten (table lo w (λ s. table 0 size (f s)))) ≡ w * size
  length-nested lo zero size f = ground arith
  length-nested lo (suc w) size f =
      let first = length-table 0 size (f lo) in
      let whole =
        length-append (table 0 size (f lo))
          (flatten (table (suc lo) w (λ s. table 0 size (f s)))) in
      let rest = length-nested (suc lo) w size f in grind arith

  -- What stands j places behind the offset of a part.
  get_or-flatten :
      (t i j : ℕ) (before : List A) (xss : List (List A)) (z : A)
      → length before ≡ t
      → j < length (get_or xss i [])
      → get_or (before ++ flatten xss) (get_or (t ∷ accumulate t (map length xss)) i 0 + j) z
        ≡ get_or (get_or xss i []) j z
  unfolding accumulate
  get_or-flatten t i j before [] z size lt = elim lt [ ]
  get_or-flatten t zero j before (xs ∷ xss) z size lt =
      ap (λ n. get_or (before ++ (xs ++ flatten xss)) (n + j) z) (sym size)
      ∙ get_or-append_right before (xs ++ flatten xss) j z
      ∙ get_or-append_left xs (flatten xss) j z lt
  get_or-flatten t (suc i) j before (xs ∷ xss) z size lt =
      ap
        (λ ys.
          get_or ys (get_or ((t + length xs) ∷ accumulate (t + length xs) (map length xss)) i 0 + j)
            z)
        (sym (append_assoc before xs (flatten xss)))
      ∙ get_or-flatten (t + length xs) i j (before ++ xs) xss z
          (omega (arith, size, length-append before xs)) lt

row_in_block : (w size slot lane : ℕ) → slot < w → lane < size → slot * size + lane < w * size
row_in_block zero size slot lane h lt = absurd (omega (arith, h))
row_in_block (suc w) size zero lane h lt =
    let block : suc w * size ≡ size + w * size = grind arith in
    let first : 0 * size ≡ 0 = grind arith in omega (arith, block, first, lt)
row_in_block (suc w) size (suc slot) lane h lt =
    let block : suc w * size ≡ size + w * size = grind arith in
    let next : suc slot * size ≡ size + slot * size = grind arith in
    let rest = row_in_block w size slot lane (omega (arith, h)) lt in
    omega (arith, block, next, rest)

get_or-map :
    {A B : Type 0} (f : A → B) (xs : List A) (i : ℕ) (z : A)
    → get_or (map f xs) i (f z) ≡ f (get_or xs i z)
get_or-map f [] i z = refl
get_or-map f (x ∷ xs) zero z = refl
get_or-map f (x ∷ xs) (suc i) z = get_or-map f xs i z

module _ (d : Doubles) (n size : ℕ) (rows : List (List (ℕ × d.V))) where
  -- Every row of a slice has room.
  lane_row-width :
      (s k lane : ℕ) → lane < k → length (lane_row d rows size s lane) ≤ width d rows size s k
  unfolding width
  lane_row-width s zero lane lt = absurd (omega (arith, lt))
  lane_row-width s (suc k) lane lt = elim (Bool-cases (lane == k)) [
    | inl e ↦
        let here : lane ≡ k = ground arith in
        subst
          (λ l.
            length (lane_row d rows size s l)
            ≤ max (width d rows size s k) (length (lane_row d rows size s k)))
          (sym here) (omega arith)
    | inr e ↦ let before : lane < k = ground arith in omega (arith, lane_row-width s k lane before)
  ]

  -- For a slice, a slot within its width and a lane, where an int32_t holds the number of slots: the
  -- place that the format prescribes, behind the
  -- slice's offset slot by slot and lane by lane within, has the entry of the lane's row, or -1 and 0
  -- behind the entries of the row; and the width has room for the whole row.
  pub pack_sell-slot_of :
      (s slot lane : ℕ)
      → s < (n + size - 1) / size
      → slot < width d rows size s size
      → lane < size
      → length (pack_sell d n size rows).cols ≤ int32_max
      → (get_or
            (pack_sell d n size rows).cols
            (pos_part (get_or (pack_sell d n size rows).offsets s (pos 0)) + (slot * size + lane))
            (negsuc 0)
          ≡ (slot_of d (lane_row d rows size s lane) slot).0)
        × (get_or
              (pack_sell d n size rows).values
              (pos_part (get_or (pack_sell d n size rows).offsets s (pos 0)) + (slot * size + lane))
              d.zero
            ≡ (slot_of d (lane_row d rows size s lane) slot).1)
        × (length (lane_row d rows size s lane) ≤ width d rows size s size)
  unfolding pack_sell slice_slots
  pack_sell-slot_of s slot lane inside within lt small =
      let count = (n + size - 1) / size in
      let f : ℕ → List (Slot d) = λ i. slice_slots d rows size i in
      let slices = table 0 count f in
      let z : Slot d = (negsuc 0, d.zero) in
      let place = get_or (0 ∷ accumulate 0 (map length slices)) s 0 + (slot * size + lane) in
      let cell : ℕ → ℕ → Slot d = λ k l. slot_of d (lane_row d rows size s l) k in
      let zero_based : 0 + s ≡ s = ground arith in
      let part : get_or slices s [] ≡ f s = get_or-table 0 count s f [] inside ∙ ap f zero_based in
      let long = ap length part ∙ length-nested 0 (width d rows size s size) size cell in
      let bound = row_in_block (width d rows size s size) size slot lane within lt in
      let zero_slot : 0 + slot ≡ slot = ground arith in
      let found =
        get_or-flatten 0 s (slot * size + lane) [] slices z refl (omega (arith, long, bound))
        ∙ ap (λ xs. get_or xs (slot * size + lane) z) part
        ∙ nested 0 (width d rows size s size) size slot lane cell z within lt
        ∙ ap (λ k. cell k lane) zero_slot in
      let many = length-map (λ (e : Slot d). e.0) (flatten slices) in
      let words = map-to_word 0 slices (omega (arith, small, many)) in
      let offset : pos_part (get_or (map to_word (0 ∷ accumulate 0 (map length slices))) s (pos 0))
          ≡ get_or (0 ∷ accumulate 0 (map length slices)) s 0 =
        ap (λ zs. pos_part (get_or zs s (pos 0))) words
        ∙ get_or-map_pos (0 ∷ accumulate 0 (map length slices)) s in
      rw (offset) (
        get_or-map (λ (e : Slot d). e.0) (flatten slices) place z ∙ ap (λ (e : Slot d). e.0) found,
        get_or-map (λ (e : Slot d). e.1) (flatten slices) place z ∙ ap (λ (e : Slot d). e.1) found,
        lane_row-width s size lane lt,
      )
