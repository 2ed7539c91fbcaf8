-- ===== src/Handle/Settings.antt =====
-- The settings of a handle, src/api/context.cpp.
use cwapper.Base.{ℕ, ◌≡◌, ◌≢◌, arith, true}
use cwapper.Types.{PointerMode, is_known_mode}
use cwapper.Exec.{ok}
use cwapper.Machine.{State}
use cwapper.Handle.{
  set_stream, get_stream, set_pointer_mode, get_pointer_mode, get_last_error_string,
}

-- On a handle that is not null: the stream that is set is the stream that is got, whatever was set
-- before, and setting it changes neither the pointer mode nor the last error. The same holds for a
-- pointer mode that the header lists.
get_stream-set_stream :
    {Mem : Type 0} (handle out stream : ℕ) (mode : PointerMode) (s : State Mem)
    → handle ≢ 0
    → out ≢ 0
    → is_known_mode mode ≡ true
    → ((get_stream handle out (set_stream handle stream s).1).0 ≡ ok stream)
      × ((get_pointer_mode handle out (set_stream handle stream s).1).0
          ≡ (get_pointer_mode handle out s).0)
      × ((get_last_error_string handle out (set_stream handle stream s).1).0
          ≡ (get_last_error_string handle out s).0)
      × ((get_pointer_mode handle out (set_pointer_mode handle mode s).1).0 ≡ ok mode)
      × ((get_stream handle out (set_pointer_mode handle mode s).1).0 ≡ (get_stream handle out s).0)
unfolding set_stream get_stream set_pointer_mode get_pointer_mode get_last_error_string
get_stream-set_stream handle out stream mode s live target known = ground arith
