-- ===== src/Floats.antt =====
-- The arithmetic of `double` that the code of ctest does on the host. It is the compiler's and the
-- processor's: the fields of a record that the definitions take.
use cwapper.Base.{ℕ, Bool, List, Option, String}

pub record Doubles : Type 1 where
  pub V : Type 0
  pub zero : V
  pub one : V
  pub plus : V → V → V
  pub minus : V → V → V
  pub times : V → V → V
  pub over : V → V → V
  pub negate : V → V
  pub magnitude : V → V
  pub is_zero : V → Bool
  -- a <= b
  pub le : V → V → Bool
  -- The value of a decimal text, as "%lf" reads it; `none` if it reads none.
  pub read : List ℕ → Option V
  -- The value of a literal of the source.
  pub literal : String → V
  -- static_cast<double> of an integer.
  pub whole : ℕ → V
  pub infinity : V
  pub is_finite : V → Bool
