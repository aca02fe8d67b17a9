-- ===== src/Events/Default.antt =====
-- libvirt's default event loop: its registration, once in a process, and one round of it.
use libvirt_go.Prelude.{[], Option, none, some}
use libvirt_go.Prelude.Int.{pos, is_negative}
use libvirt_go.Errors.{GoError}
use libvirt_go.World.{M, pure, ◌>>=◌}
use libvirt_go.Native.{NativeApi, native_call, call_int}

module _ {L : Type 0} (api : NativeApi L) where
  -- `defaultEventOnce` and `defaultEventErr`: `none` before the first call, and then its error.
  unfoldable pub event_register_default_impl :
      Option (Option GoError) → M L (Option GoError × Option (Option GoError))
  event_register_default_impl (some e) = pure (e, some e)
  event_register_default_impl none = do
    (result, e) ← native_call api (pos 0) "virEventRegisterDefaultImpl" (do
      result ← call_int api "virEventRegisterDefaultImpl" []
      pure (result, is_negative result))
    pure (e, some e)

  unfoldable pub event_run_default_impl : M L (Option GoError)
  event_run_default_impl = do
    (result, e) ←
        native_call api (pos 0) "virEventRunDefaultImpl"
          (do result ← call_int api "virEventRunDefaultImpl" []; pure (result, is_negative result))
    pure e
