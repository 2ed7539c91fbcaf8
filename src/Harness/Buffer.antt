-- ===== src/Harness/Buffer.antt =====
-- The device buffers of ctest/common.hpp, over src/adaptor/backend/_template.inc. The bytes of a host
-- vector are what is copied, so the element type shows in their number alone.
use cwapper.Base.{
  ℕ, suc, ◌≡◌, ◌≢◌, refl, ap, sym, ◌∙◌, arith, List, [], ◌∷◌, some, length, replicate,
}
use cwapper.Exec.{Result, ok, err, pure, continue, gets, ◌>>=◌, ◌>>◌}
use cwapper.Machine.{Machine, State, Op, set_mem, set_cell}
use cwapper.Machine.Memory.{IsMemory}
use cwapper.Adaptor.{init_once, discover, device_malloc, device_free, memcpy_h2d, memcpy_d2h}

module _ (m : Machine) where
  -- A call whose status is dropped.
  abbrev pub ignore : {A : Type 0} → Op m A → Op m (Unit {0})
  ignore f s = (ok tt, (f s).1)

  -- The constructor of so many bytes; `local` is where dev_alloc has its variable.
  unfoldable pub make : ℕ → ℕ → Op m ℕ
  make local bytes = do ignore (device_malloc m local bytes); gets (λ s. s.cells local)

  abbrev upload : ℕ → List ℕ → Op m (Unit {0})
  upload p [] = pure tt
  upload p (b ∷ bs) = ignore (memcpy_h2d m p (b ∷ bs))

  -- DeviceBuffer::from
  unfoldable pub from : ℕ → List ℕ → Op m ℕ
  from local bytes = do p ← make local (length bytes); upload p bytes; pure p

  -- What a vector of zeros holds after a copy of this result into it.
  abbrev or_zeros : ℕ → Result (List ℕ) → List ℕ
  or_zeros count (ok bytes) = bytes
  or_zeros count (err e) = replicate count 0

  -- DeviceBuffer::download of so many bytes.
  unfoldable pub download : ℕ → ℕ → Op m (List ℕ)
  download p count s = (ok (or_zeros count (memcpy_d2h m p count s).0), (memcpy_d2h m p count s).1)

  -- The destructor.
  unfoldable pub drop_buffer : ℕ → Op m (Unit {0})
  drop_buffer p = device_free m p

  allocated_at :
      (local n raw : ℕ) (s : State m.Mem) (after : m.Mem)
      → local ≢ 0
      → m.allocate (suc n) s.mem ≡ some (raw, after)
      → make local (suc n) s
        ≡ (ok raw, set_cell local raw (set_mem after (set_cell local 0 (init_once m s))))
  unfolding make device_malloc init_once discover
  allocated_at local n raw s after given h = ground arith

  copied_to :
      (p : ℕ) (b : ℕ) (bs : List ℕ) (t : State m.Mem) (after : m.Mem)
      → p ≢ 0
      → m.copy_in p (b ∷ bs) t.mem ≡ some after
      → memcpy_h2d m p (b ∷ bs) t ≡ (ok tt, set_mem after t)
  unfolding memcpy_h2d
  copied_to p b bs t after address h = ground arith

  uploaded :
      (local raw b : ℕ) (bs : List ℕ) (s t : State m.Mem) (after : m.Mem)
      → make local (suc (length bs)) s ≡ (ok raw, t)
      → raw ≢ 0
      → m.copy_in raw (b ∷ bs) t.mem ≡ some after
      → from local (b ∷ bs) s ≡ (ok raw, set_mem after t)
  unfolding from
  uploaded local raw b bs s t after made address h =
      let copied = copied_to raw b bs t after address h in
      ap (λ (r : Result ℕ × State m.Mem). continue r.0 (λ p. upload p (b ∷ bs) >> pure p) r.1) made
      ∙ ap (λ (r : Result (Unit {0}) × State m.Mem). (ok raw, r.1)) copied

  read_back :
      (p b : ℕ) (bs : List ℕ) (t : State m.Mem)
      → p ≢ 0
      → m.copy_out p (length (b ∷ bs)) t.mem ≡ some (b ∷ bs)
      → download p (length (b ∷ bs)) t ≡ (ok (b ∷ bs), t)
  unfolding download memcpy_d2h
  read_back p b bs t address h = ground arith

  -- On a driver with the documented behaviour of memory: where the allocation gives an address that is
  -- not null and the copy to it succeeds, a buffer made from bytes downloads as those bytes. The buffer
  -- of no bytes needs neither.
  pub download-from :
      (laws : IsMemory m) (local raw : ℕ) (bytes : List ℕ) (s : State m.Mem) (mid after : m.Mem)
      → local ≢ 0
      → raw ≢ 0
      → m.allocate (length bytes) s.mem ≡ some (raw, mid)
      → m.copy_in raw bytes mid ≡ some after
      → (from local bytes >>= λ p. download p (length bytes)) s ≡ (ok bytes, (from local bytes s).1)
  unfolding from make device_malloc download memcpy_d2h
  download-from laws local raw [] s mid after given address h k = refl
  download-from laws local raw (b ∷ bs) s mid after given address h k =
      let made = allocated_at local (length bs) raw s mid given h in
      let whole = uploaded local raw b bs s _ after made address k in
      let back = laws.copy_out-copy_in raw (b ∷ bs) mid after k in
      ap (λ (r : Result ℕ × State m.Mem). continue r.0 (λ p. download p (length (b ∷ bs))) r.1)
        whole
      ∙ read_back raw b bs _ address back
      ∙ ap (λ (r : Result ℕ × State m.Mem). (ok (b ∷ bs), r.1)) (sym whole)
