-- ===== src/Jit.antt =====
-- src/core/jit.cpp: compile and launch a kernel, and report a failure on the handle.
pub mod Report
use Prim.Native.String.{◌++◌ as str_append}
use cwapper.Base.{
  ℕ, ℤ, pos, String, Bool, true, false, not, ◌||◌, Option, none, some, ◌∷◌, le_ℤ, pattern32,
  if◌then◌else◌,
}
use cwapper.Types.{Status, success, internal_error, execution_failed}
use cwapper.Launch.{Launch}
use cwapper.Exec.{Result, ok, err, pure, fail, modify, ◌>>=◌, ◌>>◌}
use cwapper.Machine.{Machine, State, Op, set_error}

-- codegen_root: an environment variable that is set and not empty wins over the path baked in.
pub codegen_root : Option String → String → String
codegen_root none baked = baked
codegen_root (some String.[]) baked = baked
codegen_root (some (String.◌∷◌ c s)) baked = String.◌∷◌ c s

module _ (m : Machine) where
  unfoldable pub codegen_module : String → String
  unfolding codegen_root
  codegen_module file = m.join_path (codegen_root m.env_codegen_path m.baked_codegen_dir) file

  -- The grid as it is handed on: static_cast<unsigned int> of each extent.
  unfoldable pub handed : Launch → Launch
  handed r = record r {
    grid_x = pos (pattern32 r.grid_x);
    grid_y = pos (pattern32 r.grid_y);
    grid_z = pos (pattern32 r.grid_z);
  }

  abbrev outcome : Option String → Status × String
  outcome none = (success, "")
  outcome (some text) = (execution_failed, text)

  -- jit::launch: the status and the text in *error_out. (The two scratch pointers that it appends
  -- to the arguments belong to Triton's calling convention and not to the signature.)
  unfoldable pub launch : Launch → Op m (Status × String)
  unfolding handed
  launch r s =
      if le_ℤ r.grid_x (pos 0) || le_ℤ r.grid_y (pos 0) || le_ℤ r.grid_z (pos 0)
      then (ok (success, ""), s)
      else if not (m.file_exists r.module_path)
      then (ok (internal_error, str_append "kernel module not found: " r.module_path), s)
      else (
        ok (outcome (m.execute (handed r) s.mem)),
        record s { mem = m.executed (handed r) s.mem; launches = handed r ∷ s.launches },
      )

  -- How every operator ends: a failure leaves its text on the handle.
  --   if (st != FLAGSPARSE_STATUS_SUCCESS) ctx(handle)->last_error = err;
  --   return st;
  abbrev pub report : ℕ → Status × String → Op m (Unit {0})
  report handle (success, text) = pure tt
  report handle (st, text) = do modify (set_error handle text); fail st

  unfoldable pub run_launch : ℕ → Launch → Op m (Unit {0})
  unfolding launch
  run_launch handle r = do result ← launch r; report handle result
