-- ===== src/Adaptor.antt =====
-- src/adaptor/backend/_template.inc: device discovery and memory over the driver API.
-- The code's `void*` sides are host vectors here; a vector that is not empty has an address.
pub mod Memory
use cwapper.Base.{
  ℕ, ℤ, pos, Bool, true, false, not, String, List, [], Option, none, some, length, replicate, ◌==◌,
  lt_ℤ, le_ℤ, if◌then◌else◌,
}
use cwapper.Types.{not_initialized, invalid_value, mapping_error, alloc_failed}
use cwapper.Exec.{pure, fail, gets, modify, refuse, ◌>>=◌, ◌>>◌}
use cwapper.Machine.{
  Machine, State, Op, Attribute, sm_count, max_threads_per_sm, warp_size as warp_size_attribute,
  set_mem, set_cell, or_default,
}

module _ (m : Machine) where
  -- The body of the call_once in init_once.
  unfoldable pub discover : State m.Mem → State m.Mem
  discover s =
      if not m.init_ok
      then s
      else if le_ℤ (or_default (pos 0) m.device_count) (pos 0)
      then s
      else if not m.device_get_ok
      then s
      else if not m.retain_ok
      then record s { device_arch = m.architecture }
      else if not m.set_current_ok
      then record s { device_arch = m.architecture }
      else record s { device_arch = m.architecture; device_ready = true }

  unfoldable pub init_once : State m.Mem → State m.Mem
  unfolding discover
  init_once s = if s.init_done then s else record (discover s) { init_done = true }

  -- The index of the device and its architecture.
  unfoldable pub ensure_device : Op m (ℕ × String)
  ensure_device = do
    modify init_once
    ready ← gets (λ s. s.device_ready)
    refuse (not ready) not_initialized
    arch ← gets (λ s. s.device_arch)
    pure (0, arch)

  unfoldable pub device_attribute : Attribute → Op m ℤ
  device_attribute attr = do
    modify init_once
    pure (if not m.device_get_ok then pos 0 else or_default (pos 0) (m.attribute attr))

  unfoldable pub multiprocessor_count : Op m ℤ
  unfolding device_attribute
  multiprocessor_count = device_attribute sm_count

  unfoldable pub max_threads_per_multiprocessor : Op m ℤ
  unfolding device_attribute
  max_threads_per_multiprocessor = device_attribute max_threads_per_sm

  unfoldable pub warp_size : Op m ℤ
  unfolding device_attribute
  warp_size = do
    w ← device_attribute warp_size_attribute
    pure (if lt_ℤ (pos 0) w then w else pos 32)

  unfoldable pub synchronize : Op m (Unit {0})
  synchronize = modify init_once

  abbrev pub set_or_fail : Option m.Mem → Op m (Unit {0})
  set_or_fail none = fail mapping_error
  set_or_fail (some memory) = modify (set_mem memory)

  abbrev bytes_or_fail : Option (List ℕ) → Op m (List ℕ)
  bytes_or_fail none = fail mapping_error
  bytes_or_fail (some bytes) = pure bytes

  unfoldable pub memcpy_h2d : ℕ → List ℕ → Op m (Unit {0})
  memcpy_h2d dst bytes = if length bytes == 0 then pure tt else do
    refuse (dst == 0) invalid_value
    memory ← gets (λ s. s.mem)
    set_or_fail (m.copy_in dst bytes memory)

  unfoldable pub memcpy_d2h : ℕ → ℕ → Op m (List ℕ)
  memcpy_d2h src count = if count == 0 then pure [] else do
    refuse (src == 0) invalid_value
    memory ← gets (λ s. s.mem)
    bytes_or_fail (m.copy_out src count memory)

  unfoldable pub memset_device : ℕ → ℕ → ℕ → Op m (Unit {0})
  memset_device dst value count = if count == 0 then pure tt else do
    refuse (dst == 0) invalid_value
    memory ← gets (λ s. s.mem)
    set_or_fail (m.fill dst value count memory)

  unfoldable pub device_count : Op m ℤ
  device_count = do modify init_once; pure (or_default (pos 0) m.device_count)

  unfoldable pub device_architecture : Op m String
  device_architecture = do modify init_once; gets (λ s. s.device_arch)

  -- *ptr = raw, if the driver gave an address.
  abbrev allocated : ℕ → Option (ℕ × m.Mem) → Op m (Unit {0})
  allocated ptr none = fail alloc_failed
  allocated ptr (some (raw, memory)) = do modify (set_mem memory); modify (set_cell ptr raw)

  -- `ptr` is the address of the out parameter.
  unfoldable pub device_malloc : ℕ → ℕ → Op m (Unit {0})
  unfolding init_once
  device_malloc ptr bytes = do
    modify init_once
    refuse (ptr == 0) invalid_value
    modify (set_cell ptr 0)
    if bytes == 0
        then pure tt
        else do memory ← gets (λ s. s.mem); allocated ptr (m.allocate bytes memory)

  unfoldable pub device_free : ℕ → Op m (Unit {0})
  device_free p = if p == 0 then pure tt else modify (λ s. set_mem (m.release p s.mem) s)
