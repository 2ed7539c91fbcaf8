-- ===== src/Harness/Solve.antt =====
-- trsv_reference of ctest/sweep.hpp: forward substitution, the oracle for the triangular solves.
pub mod Product
use cwapper.Base.{
  ℕ, zero, suc, ◌+◌, ◌≡◌, ◌≤◌, ◌<◌, refl, sym, ap, subst, ◌∙◌, arith, inl, inr, Bool-cases, List,
  [], ◌∷◌, get_or, length, length-replicate, replicate, All, ◌==◌, if◌then◌else◌,
}
use cwapper.Floats.{Doubles}
use cwapper.Harness.Matrix.{CsrMatrix, row}

-- x[i] = v
unfoldable pub assign : {A : Type 0} → ℕ → A → List A → List A
assign i v [] = []
assign zero v (x ∷ xs) = v ∷ xs
assign (suc i) v (x ∷ xs) = x ∷ assign i v xs

module _ {A : Type 0} where
  length-assign : (i : ℕ) (v : A) (xs : List A) → length (assign i v xs) ≡ length xs
  unfolding assign
  length-assign i v [] = refl
  length-assign zero v (x ∷ xs) = refl
  length-assign (suc i) v (x ∷ xs) = ap suc (length-assign i v xs)

  get_or-assign : (i : ℕ) (v d : A) (xs : List A) → i < length xs → get_or (assign i v xs) i d ≡ v
  unfolding assign
  get_or-assign i v d [] lt = absurd (omega (arith, lt))
  get_or-assign zero v d (x ∷ xs) lt = refl
  get_or-assign (suc i) v d (x ∷ xs) lt = get_or-assign i v d xs (omega (arith, lt))

  get_or-assign_below :
      (i j : ℕ) (v d : A) (xs : List A) → j < i → get_or (assign i v xs) j d ≡ get_or xs j d
  unfolding assign
  get_or-assign_below i j v d [] lt = refl
  get_or-assign_below zero j v d (x ∷ xs) lt = absurd (omega (arith, lt))
  get_or-assign_below (suc i) zero v d (x ∷ xs) lt = refl
  get_or-assign_below (suc i) (suc j) v d (x ∷ xs) lt =
      get_or-assign_below i j v d xs (omega (arith, lt))

module _ (d : Doubles) where
  -- The loop over the entries of row `r`: what is left of the right-hand side, and the diagonal.
  unfoldable pub eliminate : ℕ → List d.V → d.V → d.V → List (ℕ × d.V) → d.V × d.V
  eliminate r x acc diag [] = (acc, diag)
  eliminate r x acc diag ((c, v) ∷ rest) =
      let on = eliminate r x acc v rest in
      let off = eliminate r x (d.minus acc (d.times v (get_or x c d.zero))) diag rest in
      if c == r then on else off

  abbrev pub quotient : d.V × d.V → d.V
  quotient (acc, diag) = d.over acc diag

  -- x[r] in terms of the other entries of `x`.
  abbrev pub solved : CsrMatrix d.V → List d.V → List d.V → ℕ → d.V
  solved l b x r = quotient (eliminate r x (get_or b r d.zero) d.one (row l r))

  -- The rows from `r` on.
  unfoldable pub substitute : CsrMatrix d.V → List d.V → ℕ → ℕ → List d.V → List d.V
  unfolding assign eliminate
  substitute l b r zero x = x
  substitute l b r (suc k) x = substitute l b (suc r) k (assign r (solved l b x r) x)

  unfoldable pub trsv_reference : CsrMatrix d.V → List d.V → List d.V
  unfolding substitute
  trsv_reference l b = substitute l b 0 l.rows (replicate l.rows d.zero)

  eliminate-≡ :
      (r : ℕ) (x y : List d.V) (acc diag : d.V) (entries : List (ℕ × d.V))
      → All (λ (e : ℕ × d.V). e.0 ≤ r) entries
      → ((j : ℕ) → j < r → get_or x j d.zero ≡ get_or y j d.zero)
      → eliminate r x acc diag entries ≡ eliminate r y acc diag entries
  unfolding eliminate
  eliminate-≡ r x y acc diag [] h same = refl
  eliminate-≡ r x y acc diag ((c, v) ∷ rest) h same = elim (Bool-cases (c == r)) [
    | inl e ↦ rw (e) (eliminate-≡ r x y acc v rest h.1 same)
    | inr e ↦
        let low = h.0 in
        let before : c < r = ground arith in
        rw (e, same c before)
          (eliminate-≡ r x y (d.minus acc (d.times v (get_or y c d.zero))) diag rest h.1 same)
  ]

  substitute-below :
      (l : CsrMatrix d.V) (b : List d.V) (r k j : ℕ) (x : List d.V)
      → j < r
      → get_or (substitute l b r k x) j d.zero ≡ get_or x j d.zero
  unfolding substitute
  substitute-below l b r zero j x lt = refl
  substitute-below l b r (suc k) j x lt =
      substitute-below l b (suc r) k j (assign r (solved l b x r) x) (omega arith)
      ∙ get_or-assign_below r j (solved l b x r) d.zero x lt

  assign-solved :
      (l : CsrMatrix d.V) (b : List d.V) (r k : ℕ) (x : List d.V)
      → r < length x
      → All (λ (e : ℕ × d.V). e.0 ≤ r) (row l r)
      → get_or (substitute l b (suc r) k (assign r (solved l b x r) x)) r d.zero
        ≡ solved l b (substitute l b (suc r) k (assign r (solved l b x r) x)) r
  assign-solved l b r k x lt lower =
      let v = solved l b x r in
      let y = assign r v x in
      let same =
        eliminate-≡ r x (substitute l b (suc r) k y) (get_or b r d.zero) d.one (row l r) lower
          (λ j low. sym (
            substitute-below l b (suc r) k j y (omega (arith, low))
            ∙ get_or-assign_below r j v d.zero x low)) in
      substitute-below l b (suc r) k r y (omega arith)
      ∙ get_or-assign r v d.zero x lt
      ∙ ap quotient same

  substitute-solved :
      (l : CsrMatrix d.V) (b : List d.V) (r k i : ℕ) (x : List d.V)
      → r + k ≤ length x
      → r ≤ i
      → i < r + k
      → All (λ (e : ℕ × d.V). e.0 ≤ i) (row l i)
      → get_or (substitute l b r k x) i d.zero ≡ solved l b (substitute l b r k x) i
  unfolding substitute
  substitute-solved l b r zero i x room le lt lower = absurd (omega (arith, le, lt))
  substitute-solved l b r (suc k) i x room le lt lower =
      let v = solved l b x r in
      let size = length-assign r v x in
      elim (Bool-cases (i == r)) [
        | inl e ↦
            let whole = substitute l b (suc r) k (assign r v x) in
            let at : i ≡ r = ground arith in
            subst (λ j. get_or whole j d.zero ≡ solved l b whole j) (sym at)
              (assign-solved l b r k x (omega (arith, room))
                (subst (λ j. All (λ (e : ℕ × d.V). e.0 ≤ j) (row l j)) at lower))
        | inr e ↦
            substitute-solved l b (suc r) k i (assign r v x) (omega (arith, size, room))
              (ground arith) (omega (arith, lt)) lower
      ]

  -- For every row of L whose columns do not pass its diagonal: the entry of the result is what the
  -- equation of that row gives, the right-hand side less the products with the other entries of the
  -- result, over the diagonal, which is 1 where the row has none. The loop reads only entries that it
  -- has computed.
  pub trsv_reference-solved :
      (l : CsrMatrix d.V) (b : List d.V) (r : ℕ)
      → r < l.rows
      → All (λ (e : ℕ × d.V). e.0 ≤ r) (row l r)
      → get_or (trsv_reference l b) r d.zero ≡ solved l b (trsv_reference l b) r
  unfolding trsv_reference
  trsv_reference-solved l b r lt lower =
      let size = length-replicate {A = d.V} l.rows d.zero in
      substitute-solved l b 0 l.rows r (replicate l.rows d.zero) (omega (arith, size)) (omega arith)
        (omega (arith, lt)) lower
