-- ===== src/Ev/Context.antt =====
-- include/co_usb/ev/context.hpp. A service is known by its address, and `use_service` gives `srv`. The
-- functions return `context` itself, which of the error protocols only `as_exception` does; and their
-- handlers are made without arguments. Where a handler is stored is not modelled here.
pub mod Lifetime
mod Tests
use co_usb.Prelude.{ℕ, Option, none, some, List, ◌==◌, if◌then◌else◌}
use co_usb.Prelude.Int.{ℤ}
use co_usb.Errors.{ErrorCode, is_error}
use co_usb.Wrapper.ErrorProtocol.{Exceptional, as_exception}
use co_usb.Ev.Handlers.{HandlerType}
use co_usb.Ev.HandlerService.{Service}
use co_usb.Ev.HandlerService

abbrev pub Services : Type 0
Services = ℕ → Service

abbrev pub change_service : Services → ℕ → Service → Services
change_service m srv s p = if p == srv then s else m p

pub record Context : Type 0 where
  pub m_srv_ptr : ℕ

abbrev pub raw_context : ℕ → Context
raw_context srv = record { m_srv_ptr = srv }

unfoldable pub get_token : Context → Services → ℕ
unfolding HandlerService.get_token
get_token self m = HandlerService.get_token (m self.m_srv_ptr)

unfoldable pub request_stop : Context → Services → Services
unfolding HandlerService.request_stop
request_stop self m =
    change_service m self.m_srv_ptr (HandlerService.request_stop (m self.m_srv_ptr))

unfoldable pub handler : Context → Services → Services
unfolding HandlerService.handler
handler self m = change_service m self.m_srv_ptr (HandlerService.handler (m self.m_srv_ptr))

unfoldable pub usb_context : Context → Services → ℕ
unfolding HandlerService.usb_context
usb_context self m = HandlerService.usb_context (m self.m_srv_ptr)

-- From the test of the error on, with `init` what `init_context` gave.
unfoldable pub begin_service :
    HandlerType → ℕ → ℕ → Service × ErrorCode → Services → Option (Services × Exceptional Context)
unfolding HandlerService.emplace_handler HandlerService.start as_exception
begin_service type stop srv (s, ec) m =
    if is_error ec
    then some (change_service m srv s, as_exception.with_error ec)
    else elim (HandlerService.emplace_handler type stop s) [
      | none ↦ none
      | some s' ↦ some (
        change_service m srv (HandlerService.start s').0,
        as_exception.with_success (raw_context srv),
      )
    ]

-- `r` and `ctx` are the results of `libusb_init`. `none` is a call that does not return.
unfoldable pub make_context :
    HandlerType → ℤ → ℕ → ℕ → ℕ → Services → Option (Services × Exceptional Context)
unfolding begin_service HandlerService.init_context
make_context type r ctx stop srv m =
    begin_service type stop srv (HandlerService.init_context r ctx (m srv)) m

module _ {InitOption : Type 0} (libusb_init_context : List InitOption → ℤ × ℕ) where
  unfoldable pub make_context_with_options :
      HandlerType → List InitOption → ℕ → ℕ → Services → Option (Services × Exceptional Context)
  unfolding begin_service HandlerService.init_context
  make_context_with_options type options stop srv m =
      let (r, ctx) = libusb_init_context options in
      begin_service type stop srv (HandlerService.init_context r ctx (m srv)) m

-- `find_service` gives the address of the service, if there is one.
unfoldable pub nothrow_get_handler_service : (ℕ → Option ℕ) → ℕ → Option ℕ
nothrow_get_handler_service find_service exec_ctx = find_service exec_ctx
