-- ===== src/Jit/Report.antt =====
-- What a launch returns, and what it leaves on the handle: src/core/jit.cpp.
use Prim.Native.String.{◌++◌ as str_append}
use cwapper.Base.{
  ℕ, pos, String, Bool, ◌≡◌, ◌⊎◌, inl, inr, refl, sym, ap, ◌∙◌, arith, true, false, ◌||◌, Option,
  none, some, ◌∷◌, le_ℤ,
}
use cwapper.Types.{Status, internal_error, execution_failed}
use cwapper.Launch.{Launch}
use cwapper.Exec.{ok, err, fail}
use cwapper.Machine.{Machine, State, context_at, set_error}
use cwapper.Jit.{launch, run_launch, handed}

abbrev pub is_empty_grid : Launch → Bool
is_empty_grid r = le_ℤ r.grid_x (pos 0) || le_ℤ r.grid_y (pos 0) || le_ℤ r.grid_z (pos 0)

last_error-set_error :
    {Mem : Type 0} (h : ℕ) (text : String) (s : State Mem)
    → (context_at (set_error h text s) h).last_error ≡ text
last_error-set_error h text s = ground arith

fail_eq :
    {S : Type 0} (d e : Status) (u t : S) → fail {A = Unit {0}} d u ≡ (err e, t) → (d ≡ e) × (u ≡ t)
fail_eq d e u t h = (cc, cc)

module _ (m : Machine) (handle : ℕ) (r : Launch) (s : State m.Mem) where
  abbrev pub started : State m.Mem
  started = record s { mem = m.executed (handed m r) s.mem; launches = handed m r ∷ s.launches }

  -- What went wrong in a launch that returned `e`, and what it left in `t`.
  abbrev pub HasFailed : Status → State m.Mem → Type 0
  HasFailed e t =
      ((e ≡ internal_error)
        × (m.file_exists r.module_path ≡ false)
        × ((context_at t handle).last_error ≡ str_append "kernel module not found: " r.module_path)
        × (t.launches ≡ s.launches)
        × (t.mem ≡ s.mem))
      ⊎ ((e ≡ execution_failed)
          × (m.execute (handed m r) s.mem ≡ some (context_at t handle).last_error)
          × (t.launches ≡ handed m r ∷ s.launches))

  failed-HasFailed :
      (b c : Bool) (o : Option String) (e : Status) (t : State m.Mem)
      → is_empty_grid r ≡ b
      → m.file_exists r.module_path ≡ c
      → m.execute (handed m r) s.mem ≡ o
      → run_launch m handle r s ≡ (err e, t)
      → HasFailed e t
  unfolding run_launch launch
  failed-HasFailed true c o e t hb hc ho h = let g = (rw (hb) at h) in cc g
  failed-HasFailed false false o e t hb hc ho h =
      let g = (rw (hb, hc) at h) in
      let (same, reached) = fail_eq internal_error e _ t g in
      inl (
        sym same,
        hc,
        ap (λ u. (context_at u handle).last_error) (sym reached) ∙ last_error-set_error handle _ s,
        ap (λ u. u.launches) (sym reached),
        ap (λ u. u.mem) (sym reached),
      )
  failed-HasFailed false true none e t hb hc ho h = let g = (rw (hb, hc, ho) at h) in cc g
  failed-HasFailed false true (some text) e t hb hc ho h =
      let g = (rw (hb, hc, ho) at h) in
      let (same, reached) = fail_eq execution_failed e _ t g in
      let kept =
        ap (λ u. (context_at u handle).last_error) (sym reached)
        ∙ last_error-set_error handle text started in
      inr (sym same, ho ∙ ap some (sym kept), ap (λ u. u.launches) (sym reached))

  -- How an operator fails: its kernel module is missing, and then no kernel was started and the
  -- device's memory is as it was; or the kernel failed. Either way the text of that is the last error
  -- on the handle.
  pub run_launch-HasFailed :
      (e : Status) (t : State m.Mem) → run_launch m handle r s ≡ (err e, t) → HasFailed e t
  run_launch-HasFailed e t h = failed-HasFailed _ _ _ e t refl refl refl h

  -- How an operator succeeds: its grid is empty, and then nothing changed, not even the last error;
  -- or the kernel was started once, did not fail, and nothing but that changed.
  pub run_launch-started :
      (t : State m.Mem)
      → run_launch m handle r s ≡ (ok tt, t)
      → ((is_empty_grid r ≡ true) × (t ≡ s))
        ⊎ ((is_empty_grid r ≡ false) × (m.execute (handed m r) s.mem ≡ none) × (t ≡ started))
  unfolding run_launch launch
  run_launch-started t h = ground arith
