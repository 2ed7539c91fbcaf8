-- ===== src/Gather/Agreement.antt =====
-- The launches of src/ops/gather_scatter.cpp over a whole call.
use cwapper.Base.{ℕ}
use cwapper.Descr.{SpVecDescr, DnVecDescr}
use cwapper.Exec.Keeps.{Keeps, keeps_rules}
use cwapper.Machine.{Machine, State}
use cwapper.Frame.{
  IsFrame, run_launch-Keeps, warp_size-Keeps, max_threads-Keeps, multiprocessor_count-Keeps,
}
use cwapper.Gather.{gather_max_programs, check_objects, validate, gather, scatter}
use cwapper.Gather.Grid.{request-Agrees}

module _ (m : Machine) (p : ℕ) (P : State m.Mem → Type 0) (frame : IsFrame m p P) where
  max_programs-Keeps : Keeps P (gather_max_programs m)
  unfolding gather_max_programs
  max_programs-Keeps =
      search (keeps_rules, warp_size-Keeps, max_threads-Keeps, multiprocessor_count-Keeps, frame)
        depth 9

  check_objects-Keeps : (x : SpVecDescr) (y : DnVecDescr) → Keeps P (check_objects m x y)
  unfolding check_objects
  check_objects-Keeps x y = search keeps_rules depth 12

  validate-Keeps : (handle sp dn : ℕ) → Keeps P (validate m handle sp dn)
  unfolding validate
  validate-Keeps handle sp dn = search (keeps_rules, check_objects-Keeps) depth 9

  pub gather-Keeps : (handle vec_y vec_x : ℕ) → Keeps P (gather m handle vec_y vec_x)
  unfolding gather
  gather-Keeps handle vec_y vec_x =
      search
        (keeps_rules, validate-Keeps, max_programs-Keeps, run_launch-Keeps, request-Agrees, frame)
        depth 12

  pub scatter-Keeps : (handle vec_x vec_y : ℕ) → Keeps P (scatter m handle vec_x vec_y)
  unfolding scatter
  scatter-Keeps handle vec_x vec_y =
      search (keeps_rules, validate-Keeps, run_launch-Keeps, request-Agrees, frame) depth 12
