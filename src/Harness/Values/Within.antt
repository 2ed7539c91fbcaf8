-- ===== src/Harness/Values/Within.antt =====
-- What a ratio of max_error_ratio (ctest/common.cpp) within 1 says of the elements.
use cwapper.Base.{
  ◌≡◌, ◌⊎◌, inl, inr, refl, sym, ap, ◌∙◌, arith, true, false, Bool-cases, List, [], ◌∷◌, length,
  ◌==◌,
}
use cwapper.Floats.{Doubles}
use cwapper.Harness.Values.{Tolerance, larger, off_by, worst_of, max_error_ratio}

-- What IEEE comparison does: it is transitive, two numbers that are no NaN compare, and infinity is not
-- within 1. A value that is no NaN is one that compares with itself.
pub record IsOrdered (d : Doubles) : Type 0 where
  pub trans : (a b c : d.V) → d.le a b ≡ true → d.le b c ≡ true → d.le a c ≡ true
  pub total :
      (a b : d.V) → d.le a a ≡ true → d.le b b ≡ true → (d.le a b ≡ true) ⊎ (d.le b a ≡ true)
  pub zero_zero : d.le d.zero d.zero ≡ true
  pub infinity_one : d.le d.infinity d.one ≡ false

module _ (d : Doubles) (tol : Tolerance d.V) where
  -- The quotients are no NaN, as they are for a finite answer against a finite reference.
  abbrev pub Compares : List d.V → List d.V → Type 0
  Compares (got ∷ actual) (want ∷ ref) =
      (d.le (off_by d tol got want) (off_by d tol got want) ≡ true) × Compares actual ref
  Compares _ _ = Unit {0}

  -- Element by element: finite, and as near as the tolerance wants.
  abbrev pub IsWithin : List d.V → List d.V → Type 0
  IsWithin [] [] = Unit {0}
  IsWithin (got ∷ actual) (want ∷ ref) =
      (d.is_finite got ≡ true) × (d.le (off_by d tol got want) d.one ≡ true) × IsWithin actual ref
  IsWithin _ _ = ⊥

  worst_of-finite :
      (worst got want : d.V) (actual ref : List d.V)
      → d.is_finite got ≡ true
      → worst_of d tol worst (got ∷ actual) (want ∷ ref)
        ≡ worst_of d tol (larger d worst (off_by d tol got want)) actual ref
  unfolding worst_of
  worst_of-finite worst got want actual ref e = rw (e) refl

  worst_of-infinite :
      (worst got want : d.V) (actual ref : List d.V)
      → d.is_finite got ≡ false
      → worst_of d tol worst (got ∷ actual) (want ∷ ref) ≡ d.infinity
  unfolding worst_of
  worst_of-infinite worst got want actual ref e = rw (e) refl

  larger_self :
      (a b : d.V) → d.le a a ≡ true → d.le b b ≡ true → d.le (larger d a b) (larger d a b) ≡ true
  larger_self a b p q = ground arith

  module _ (laws : IsOrdered d) where
    larger-bounds :
        (a b : d.V)
        → d.le a a ≡ true
        → d.le b b ≡ true
        → d.le (larger d a b) d.one ≡ true
        → (d.le a d.one ≡ true) × (d.le b d.one ≡ true)
    larger-bounds a b p q h =
        let either = laws.total a b p q in
        let up = laws.trans a b d.one in let down = laws.trans b a d.one in ground arith

    worst_of-IsWithin :
        (worst : d.V) (actual ref : List d.V)
        → d.le worst worst ≡ true
        → Compares actual ref
        → length actual ≡ length ref
        → d.le (worst_of d tol worst actual ref) d.one ≡ true
        → (d.le worst d.one ≡ true) × IsWithin actual ref
    unfolding worst_of
    worst_of-IsWithin worst [] [] p c size h = (h, tt)
    worst_of-IsWithin worst [] (want ∷ ref) p c size h = absurd (omega (arith, size))
    worst_of-IsWithin worst (got ∷ actual) [] p c size h = absurd (omega (arith, size))
    worst_of-IsWithin worst (got ∷ actual) (want ∷ ref) p c size h =
        let next = larger d worst (off_by d tol got want) in
        elim (Bool-cases (d.is_finite got)) [
          | inl e ↦
              let rest =
                worst_of-IsWithin next actual ref (larger_self worst (off_by d tol got want) p c.0)
                  c.1 (omega (arith, size))
                  (sym (ap (λ v. d.le v d.one) (worst_of-finite worst got want actual ref e))
                    ∙ h) in
              let bounds = larger-bounds worst (off_by d tol got want) p c.0 rest.0 in
              (bounds.0, (e, bounds.1, rest.1))
          | inr e ↦
              let stop =
                sym laws.infinity_one
                ∙ sym (ap (λ v. d.le v d.one) (worst_of-infinite worst got want actual ref e))
                ∙ h in
              absurd (ground arith)
        ]

    -- If max_error_ratio is within 1, then the answer has as many elements as the reference, and each is
    -- finite and within the tolerance of its reference. The quotients must be no NaN: an element whose
    -- reference is not finite can make one, and does not count.
    pub max_error_ratio-IsWithin :
        (actual ref : List d.V)
        → Compares actual ref
        → d.le (max_error_ratio d actual ref tol) d.one ≡ true
        → (length actual ≡ length ref) × IsWithin actual ref
    unfolding max_error_ratio
    max_error_ratio-IsWithin actual ref c h = elim (Bool-cases (length actual == length ref)) [
      | inl e ↦
          let size : length actual ≡ length ref = ground arith in
          let whole : max_error_ratio d actual ref tol ≡ worst_of d tol d.zero actual ref =
            rw (e) refl in
          (
            size,
            (worst_of-IsWithin d.zero actual ref laws.zero_zero c size
                (sym (ap (λ v. d.le v d.one) whole) ∙ h)).1,
          )
      | inr e ↦
          let whole : max_error_ratio d actual ref tol ≡ d.infinity = rw (e) refl in
          let stop = sym laws.infinity_one ∙ sym (ap (λ v. d.le v d.one) whole) ∙ h in
          absurd (ground arith)
    ]
