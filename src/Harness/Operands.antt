-- ===== src/Harness/Operands.antt =====
-- upload_as and read_back of ctest/sweep.hpp: what is copied to the device for an operand, and what is
-- made of the elements that come back. The copies are those of Buffer; a failed one gives no elements.
use cwapper.Base.{
  ℕ, zero, suc, ◌+◌, ◌-◌, ◌*◌, ◌≡◌, refl, sym, ap, ◌∙◌, arith, Bool, true, false, List, [], ◌∷◌,
  ◌++◌, map, length, length-map, length-replicate, get_or, get_or-append_right, replicate, table,
  length-table, get_or-table, get_or_ext, if◌then◌else◌,
}
use cwapper.Floats.{Doubles}
use cwapper.Types.{DataType, r_16f, r_32f, r_64f, c_32f, c_64f, r_16bf}
use cwapper.Harness.Half.{float_to_fp16, fp16_to_float, float_to_bf16, bf16_to_float}
use cwapper.Harness.Values.{dtype_components, dtype_is_half, dtype_is_64}

-- The casts between double and float, and the pattern of a float.
pub record Singles (d : Doubles) : Type 1 where
  pub F : Type 0
  pub zero : F
  pub to_single : d.V → F
  pub of_single : F → d.V
  pub bits : F → ℕ
  pub of_bits : ℕ → F

-- The vector on the host, by the type of its elements.
pub data Host (V F : Type 0) : Type 0 where
  halves : List ℕ → Host V F
  doubles : List V → Host V F
  floats : List F → Host V F

abbrev is_fp16 : DataType → Bool
is_fp16 r_16f = true
is_fp16 _ = false

module _ {A : Type 0} where
  -- h[i * comp] = src[i] in a vector of zeros.
  unfoldable pub spread : ℕ → A → List A → List A
  spread comp z [] = []
  spread comp z (x ∷ xs) = x ∷ (replicate (comp - 1) z ++ spread comp z xs)

  -- out[i] = h[i * comp]
  unfoldable pub gathered : ℕ → A → ℕ → List A → List A
  gathered comp z count xs = table 0 count (λ i. get_or xs (i * comp) z)

  real_part :
      (k : ℕ) (z : A) (xs : List A) (i : ℕ)
      → get_or (spread (suc k) z xs) (i * suc k) z ≡ get_or xs i z
  unfolding spread
  real_part k z [] i = refl
  real_part k z (x ∷ xs) zero =
      let first : 0 * suc k ≡ 0 = grind arith in
      ap (λ n. get_or (x ∷ (replicate (suc k - 1) z ++ spread (suc k) z xs)) n z) first
  real_part k z (x ∷ xs) (suc i) =
      let zeros : suc k - 1 ≡ k = ground arith in
      let size = length-replicate k z in
      let place : suc i * suc k ≡ suc (k + i * suc k) = grind arith in
      ap (λ n. get_or (x ∷ (replicate (suc k - 1) z ++ spread (suc k) z xs)) n z) place
      ∙ ap (λ n. get_or (replicate n z ++ spread (suc k) z xs) (k + i * suc k) z) zeros
      ∙ ap (λ n. get_or (replicate k z ++ spread (suc k) z xs) (n + i * suc k) z) (sym size)
      ∙ get_or-append_right (replicate k z) (spread (suc k) z xs) (i * suc k) z
      ∙ real_part k z xs i

  gathered-spread :
      (k : ℕ) (z : A) (xs : List A) → gathered (suc k) z (length xs) (spread (suc k) z xs) ≡ xs
  unfolding gathered
  gathered-spread k z xs =
      let f : ℕ → A = λ i. get_or (spread (suc k) z xs) (i * suc k) z in
      let size = length-table 0 (length xs) f in
      get_or_ext z (table 0 (length xs) f) xs size (λ i lt.
        let zero_based : 0 + i ≡ i = ground arith in
        get_or-table 0 (length xs) i f z (omega (arith, size, lt))
        ∙ ap f zero_based
        ∙ real_part k z xs i)

module _ (d : Doubles) (c : Singles d) where
  -- The vector that upload_as makes.
  unfoldable pub operand : DataType → List d.V → Host d.V c.F
  operand t src =
      if dtype_is_half t
      then halves (
          map
            (λ v.
              if is_fp16 t
              then float_to_fp16 (c.bits (c.to_single v))
              else float_to_bf16 (c.bits (c.to_single v)))
            src)
      else if dtype_is_64 t
      then doubles (spread (dtype_components t) d.zero src)
      else floats (spread (dtype_components t) c.zero (map c.to_single src))

  -- The elements that read_back returns, from the vector that the copy filled.
  unfoldable pub elements : DataType → ℕ → Host d.V c.F → List d.V
  elements t count (halves hs) =
      map (λ h. c.of_single (c.of_bits (if is_fp16 t then fp16_to_float h else bf16_to_float h))) hs
  elements t count (doubles hs) = gathered (dtype_components t) d.zero count hs
  elements t count (floats hs) = map c.of_single (gathered (dtype_components t) c.zero count hs)

  -- What the type of an operand makes of a value.
  abbrev rounded : DataType → d.V → d.V
  rounded r_64f v = v
  rounded c_64f v = v
  rounded r_16f v = c.of_single (c.of_bits (fp16_to_float (float_to_fp16 (c.bits (c.to_single v)))))
  rounded r_16bf v =
      c.of_single (c.of_bits (bf16_to_float (float_to_bf16 (c.bits (c.to_single v)))))
  rounded _ v = c.of_single (c.to_single v)

  map-map :
      {A B C : Type 0} (f : B → C) (g : A → B) (xs : List A)
      → map f (map g xs) ≡ map (λ x. f (g x)) xs
  map-map f g [] = refl
  map-map f g (x ∷ xs) = ap (λ ys. f (g x) ∷ ys) (map-map f g xs)

  map-id : (xs : List d.V) → xs ≡ map (λ v. v) xs
  map-id [] = refl
  map-id (x ∷ xs) = ap (λ ys. x ∷ ys) (map-id xs)

  singles :
      (k : ℕ) (xs : List d.V)
      → map c.of_single
          (gathered (suc k) c.zero (length xs) (spread (suc k) c.zero (map c.to_single xs)))
        ≡ map (λ v. c.of_single (c.to_single v)) xs
  singles k xs =
      ap
        (λ n.
          map c.of_single (gathered (suc k) c.zero n (spread (suc k) c.zero (map c.to_single xs))))
        (sym (length-map c.to_single xs))
      ∙ ap (map c.of_single) (gathered-spread k c.zero (map c.to_single xs))
      ∙ map-map c.of_single c.to_single xs

  -- For every type: the elements read back from the vector that was uploaded are the values rounded to
  -- that type, in their places; the imaginary parts are passed over.
  elements-operand :
      (t : DataType) (xs : List d.V) → elements t (length xs) (operand t xs) ≡ map (rounded t) xs
  unfolding elements operand
  elements-operand r_16f xs = map-map _ _ xs
  elements-operand r_16bf xs = map-map _ _ xs
  elements-operand r_64f xs = gathered-spread 0 d.zero xs ∙ map-id xs
  elements-operand c_64f xs = gathered-spread 1 d.zero xs ∙ map-id xs
  elements-operand r_32f xs = singles 0 xs
  elements-operand c_32f xs = singles 1 xs
  elements-operand DataType.r_8i xs = singles 0 xs
  elements-operand DataType.r_32i xs = singles 0 xs
  elements-operand (DataType.other n) xs = singles 0 xs
