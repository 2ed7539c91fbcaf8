-- ===== src/Tests/Descriptors.antt =====
-- Descriptors, handles and types at concrete inputs.
use cwapper.Base.{ℕ, arith, pos, none}
use cwapper.Types.{r_32f, index_32i, base_zero}
use cwapper.Machine.{State}
use cwapper.Create.{create_csr}
use cwapper.Create.Calls.{Reachable, start as from, call, makes_csr, Reachable-AllValid}
use cwapper.Create.Lifecycle.{AllValid}
use cwapper.Tests.Bench.{start}

-- No matrices yet.
abbrev blank : State (ℕ → ℕ)
blank = record start { mats = λ p. none }

blank-AllValid : AllValid blank
blank-AllValid = record { at = λ q d h. absurd (ground arith) }

abbrev made : State (ℕ → ℕ)
made =
    (create_csr 900 (pos 2) (pos 2) (pos 3) 1000 2000 3000 index_32i index_32i base_zero r_32f 10
      blank).1

made_Reachable : Reachable blank made
made_Reachable =
    call blank _ from
      (makes_csr 900 (pos 2) (pos 2) (pos 3) 1000 2000 3000 index_32i index_32i base_zero r_32f 10)

Reachable-AllValid_example : AllValid made
Reachable-AllValid_example = Reachable-AllValid blank made blank-AllValid made_Reachable
