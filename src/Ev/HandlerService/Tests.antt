-- ===== src/Ev/HandlerService/Tests.antt =====
-- A service of the reference-counted handler.
use co_usb.Prelude.{◌≡◌, true, some, [], ◌∷◌, arith}
use co_usb.Prelude.Int.{pos}
use co_usb.Libusb
use co_usb.Errors.{no_error}
use co_usb.Ev.Handlers.{HandlerType}
use co_usb.Ev.HandlerService.{Call, Service, start, make_context, get_handler_service}
use co_usb.Ev.HandlerService.Lifetime.{running, never_run, make_context-running}

abbrev twice : Service
twice = never_run HandlerType.trivial 6 2 (Call.exited 5 ∷ Call.joined 5 ∷ [])

make_context-running_example :
    (make_context HandlerType.trivial Libusb.success 6 2 (running HandlerType.refcounted 0 5 1 [])
      ≡ some (twice, no_error))
    × (start twice ≡ (twice, true))
    × (get_handler_service (pos 0) 5 3 twice ≡ some (twice, no_error))
make_context-running_example =
    make_context-running HandlerType.refcounted HandlerType.trivial 5 6 1 2 3 [] (pos 0)
      (λ e. omega (arith, e))
