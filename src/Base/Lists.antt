-- ===== src/Base/Lists.antt =====
-- Lists measured and indexed by native numbers, under the library's names.
use Prim.Native.Nat.{ℕ, zero, suc, ◌+◌, ◌≤◌, ◌<◌}
use mathlib.Core.Path.{◌≡◌, refl, sym, ap, ◌∙◌}
use mathlib.Core.List.{List, [], ◌∷◌, ◌++◌, map}
use mathlib.Core.Bool.{Bool, true, false}
use native.Mathlib.Omega.{arith}

module _ {ℓ} {A : Type ℓ} where
  abbrev pub length : List A → ℕ
  length [] = 0
  length (x ∷ xs) = suc (length xs)

  abbrev pub get_or : List A → ℕ → A → A
  get_or [] i d = d
  get_or (x ∷ xs) zero d = x
  get_or (x ∷ xs) (suc i) d = get_or xs i d

  abbrev pub take : ℕ → List A → List A
  take zero xs = []
  take (suc n) [] = []
  take (suc n) (x ∷ xs) = x ∷ take n xs

  abbrev pub drop : ℕ → List A → List A
  drop zero xs = xs
  drop (suc n) [] = []
  drop (suc n) (x ∷ xs) = drop n xs

  abbrev pub replicate : ℕ → A → List A
  replicate zero a = []
  replicate (suc n) a = a ∷ replicate n a

  -- if (b) push(x), in front of what is pushed later.
  abbrev pub only_if : Bool → A → List A → List A
  only_if true x rest = x ∷ rest
  only_if false x rest = rest

  pub length-append : (xs ys : List A) → length (xs ++ ys) ≡ length xs + length ys
  length-append [] ys = omega arith
  length-append (x ∷ xs) ys = omega (arith, length-append xs ys)

  pub length-replicate : (n : ℕ) (a : A) → length (replicate n a) ≡ n
  length-replicate zero a = refl
  length-replicate (suc n) a = ap suc (length-replicate n a)

  -- A predicate on every element, which computes to a tuple.
  abbrev pub All {κ} : (A → Type κ) → List A → Type κ
  All P [] = Unit
  All P (x ∷ xs) = P x × All P xs

pub length-map {ℓ κ} :
    {A : Type ℓ} {B : Type κ} (f : A → B) (xs : List A) → length (map f xs) ≡ length xs
length-map f [] = refl
length-map f (x ∷ xs) = ap suc (length-map f xs)

module _ {A : Type 0} where
  pub take-drop : (n : ℕ) (xs : List A) → take n xs ++ drop n xs ≡ xs
  take-drop zero xs = refl
  take-drop (suc n) [] = refl
  take-drop (suc n) (x ∷ xs) = ap (λ ys. x ∷ ys) (take-drop n xs)

  pub length-take : (n k : ℕ) (xs : List A) → length xs ≡ n + k → length (take n xs) ≡ n
  length-take zero k xs h = refl
  length-take (suc n) k [] h = omega (arith, h)
  length-take (suc n) k (x ∷ xs) h = ap suc (length-take n k xs (omega (arith, h)))

  pub length-drop : (n k : ℕ) (xs : List A) → length xs ≡ n + k → length (drop n xs) ≡ k
  length-drop zero k xs h = omega (arith, h)
  length-drop (suc n) k [] h = omega (arith, h)
  length-drop (suc n) k (x ∷ xs) h = length-drop n k xs (omega (arith, h))

  pub take-append : (n : ℕ) (xs ys : List A) → length xs ≡ n → take n (xs ++ ys) ≡ xs
  take-append zero [] ys h = refl
  take-append zero (x ∷ xs) ys h = ground arith
  take-append (suc n) [] ys h = ground arith
  take-append (suc n) (x ∷ xs) ys h = ap (λ zs. x ∷ zs) (take-append n xs ys (omega (arith, h)))

  pub drop-append : (n : ℕ) (xs ys : List A) → length xs ≡ n → drop n (xs ++ ys) ≡ ys
  drop-append zero [] ys h = refl
  drop-append zero (x ∷ xs) ys h = ground arith
  drop-append (suc n) [] ys h = ground arith
  drop-append (suc n) (x ∷ xs) ys h = drop-append n xs ys (omega (arith, h))

  pub drop-add : (a k : ℕ) (xs : List A) → drop (a + k) xs ≡ drop k (drop a xs)
  drop-add zero k xs = let same : 0 + k ≡ k = ground arith in ap (λ n. drop n xs) same
  drop-add (suc a) k xs =
      let same : suc a + k ≡ suc (a + k) = ground arith in
      ap (λ n. drop n xs) same ∙ drop-suc a k xs (drop-add a k)
    where
      drop-none : (n : ℕ) → drop {A = A} n [] ≡ []
      drop-none zero = refl
      drop-none (suc n) = refl

      drop-suc :
          (b n : ℕ) (ys : List A)
          → ((zs : List A) → drop (b + n) zs ≡ drop n (drop b zs))
          → drop (suc (b + n)) ys ≡ drop n (drop (suc b) ys)
      drop-suc b n [] h = sym (drop-none n)
      drop-suc b n (y ∷ ys) h = h ys

module _ {ℓ κ} {A : Type ℓ} {B : Type κ} where
  pub take-map : (f : A → B) (n : ℕ) (xs : List A) → take n (map f xs) ≡ map f (take n xs)
  take-map f zero xs = refl
  take-map f (suc n) [] = refl
  take-map f (suc n) (x ∷ xs) = ap (λ ys. f x ∷ ys) (take-map f n xs)

  pub map-append : (f : A → B) (xs ys : List A) → map f (xs ++ ys) ≡ map f xs ++ map f ys
  map-append f [] ys = refl
  map-append f (x ∷ xs) ys = ap (λ zs. f x ∷ zs) (map-append f xs ys)

  pub drop-map : (f : A → B) (n : ℕ) (xs : List A) → drop n (map f xs) ≡ map f (drop n xs)
  drop-map f zero xs = refl
  drop-map f (suc n) [] = refl
  drop-map f (suc n) (x ∷ xs) = drop-map f n xs

module _ {ℓ κ} {A : Type ℓ} (P : A → Type κ) where
  pub take-All : (n : ℕ) (xs : List A) → All P xs → All P (take n xs)
  take-All zero xs h = tt
  take-All (suc n) [] h = tt
  take-All (suc n) (x ∷ xs) h = (h.0, take-All n xs h.1)

  pub drop-All : (n : ℕ) (xs : List A) → All P xs → All P (drop n xs)
  drop-All zero xs h = h
  drop-All (suc n) [] h = tt
  drop-All (suc n) (x ∷ xs) h = drop-All n xs h.1

-- f lo, f (lo + 1), ..., so many of them.
module _ {ℓ} {A : Type ℓ} where
  abbrev pub table : ℕ → ℕ → (ℕ → A) → List A
  table lo zero f = []
  table lo (suc n) f = f lo ∷ table (suc lo) n f

  pub table-≡ :
      (lo n : ℕ) (f g : ℕ → A) → ((i : ℕ) → lo ≤ i → f i ≡ g i) → table lo n f ≡ table lo n g
  table-≡ lo zero f g h = refl
  table-≡ lo (suc n) f g h =
      let here = h lo (omega arith) in
      let rest = table-≡ (suc lo) n f g (λ i le. h i (omega arith)) in cc

  pub length-table : (lo n : ℕ) (f : ℕ → A) → length (table lo n f) ≡ n
  length-table lo zero f = refl
  length-table lo (suc n) f = ap suc (length-table (suc lo) n f)

  pub get_or-table :
      (lo n i : ℕ) (f : ℕ → A) (d : A) → i < n → get_or (table lo n f) i d ≡ f (lo + i)
  get_or-table lo zero i f d h = elim h [ ]
  get_or-table lo (suc n) zero f d h = let same : lo ≡ lo + 0 = ground arith in ap f same
  get_or-table lo (suc n) (suc i) f d h =
      let same : suc lo + i ≡ lo + suc i = ground arith in
      get_or-table (suc lo) n i f d (omega arith) ∙ ap f same

  pub get_or-append_left :
      (xs ys : List A) (i : ℕ) (d : A) → i < length xs → get_or (xs ++ ys) i d ≡ get_or xs i d
  get_or-append_left [] ys i d h = elim h [ ]
  get_or-append_left (x ∷ xs) ys zero d h = refl
  get_or-append_left (x ∷ xs) ys (suc i) d h = get_or-append_left xs ys i d (omega arith)

  pub get_or-append_right :
      (xs ys : List A) (i : ℕ) (d : A) → get_or (xs ++ ys) (length xs + i) d ≡ get_or ys i d
  get_or-append_right [] ys i d =
      let same : 0 + i ≡ i = ground arith in ap (λ n. get_or ys n d) same
  get_or-append_right (x ∷ xs) ys i d =
      let same : suc (length xs) + i ≡ suc (length xs + i) = ground arith in
      ap (λ n. get_or (x ∷ (xs ++ ys)) n d) same ∙ get_or-append_right xs ys i d

  -- Lists of one length with the same elements are one list.
  pub get_or_ext :
      (d : A) (xs ys : List A)
      → length xs ≡ length ys
      → ((i : ℕ) → i < length xs → get_or xs i d ≡ get_or ys i d)
      → xs ≡ ys
  get_or_ext d [] [] h k = refl
  get_or_ext d [] (y ∷ ys) h k = absurd (omega (arith, h))
  get_or_ext d (x ∷ xs) [] h k = absurd (omega (arith, h))
  get_or_ext d (x ∷ xs) (y ∷ ys) h k =
      let first = k 0 (omega arith) in
      let rest = get_or_ext d xs ys (omega (arith, h)) (λ i lt. k (suc i) (omega arith)) in cc
