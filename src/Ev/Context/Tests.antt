-- ===== src/Ev/Context/Tests.antt =====
-- `make_context_with_options` of include/co_usb/ev/context.hpp on a new service.
use co_usb.Prelude.{ℕ, ◌≡◌, ◌≢◌, refl, some, List, [], ◌∷◌}
use co_usb.Prelude.Int.{ℤ}
use co_usb.Libusb
use co_usb.Errors.{make_usb_error_code}
use co_usb.Wrapper.ErrorProtocol.{Exceptional}
use co_usb.Ev.Handlers.{HandlerType}
use co_usb.Ev.HandlerService.{make_service}
use co_usb.Ev.Context.{
  Services, change_service, raw_context, make_context, make_context_with_options,
}
use co_usb.Ev.Context.Lifetime.{Serves, make_context-Serves}

-- libusb gives the context at 64, whatever the options.
abbrev context_64 : List ℕ → ℤ × ℕ
context_64 options = (Libusb.success, 64)

abbrev new_services : Services
new_services srv = make_service 5

make_context-Serves_example :
    (make_context_with_options context_64 HandlerType.trivial (1 ∷ []) 6 100 new_services
      ≡ make_context HandlerType.trivial Libusb.success 64 6 100 new_services)
    × (Libusb.success ≢ Libusb.success
        → make_context HandlerType.trivial Libusb.success 64 6 100 new_services
          ≡ some (
            change_service new_services 100 (make_service 5),
            Exceptional.system_error (make_usb_error_code Libusb.success),
          ))
    × (Libusb.success ≡ Libusb.success
        → (m' : Services) × (make_context HandlerType.trivial Libusb.success 64 6 100 new_services
            ≡ some (m', Exceptional.returned (raw_context 100)))
          × Serves HandlerType.trivial 64 5 100 (raw_context 100) m')
make_context-Serves_example =
    make_context-Serves context_64 HandlerType.trivial (1 ∷ []) 5 6 100 new_services refl
