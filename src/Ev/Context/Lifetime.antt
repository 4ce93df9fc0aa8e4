-- ===== src/Ev/Context/Lifetime.antt =====
-- A context from `make_context` of include/co_usb/ev/context.hpp to the end of its service.
use co_usb.Prelude.{
  ℕ, ◌≡◌, ◌≢◌, refl, ap, ◌∙◌, true, none, some, Option, List, [], ◌∷◌, if◌then◌else◌, arith,
}
use co_usb.Prelude.Int.{ℤ, ==ℤ_iff}
use co_usb.Libusb
use co_usb.Errors.{ErrorCode, is_error, make_usb_error_code}
use co_usb.Wrapper.ErrorProtocol.{Exceptional, as_exception}
use co_usb.Ev.Handlers.{HandlerType}
use co_usb.Ev.HandlerService.{
  Call, Service, make_service, destroy_service, shutdown, join_handler, can_end,
}
use co_usb.Ev.HandlerService
use co_usb.Ev.HandlerService.Lifetime.{running, make_context-make_service}
use co_usb.Ev.Context.{
  Services, change_service, Context, raw_context, get_token, request_stop, usb_context,
  begin_service, make_context, make_context_with_options,
}

-- The services after `make_context`, and what it returns or throws, by those of the service's.
abbrev reported :
    ℕ → Services → Option (Service × ErrorCode) → Option (Services × Exceptional Context)
reported srv m none = none
reported srv m (some (s, ec)) = some (
  change_service m srv s,
  if is_error ec then Exceptional.system_error ec else Exceptional.returned (raw_context srv),
)

make_context-HandlerService :
    (type : HandlerType) (r : ℤ) (ctx stop srv : ℕ) (m : Services)
    → make_context type r ctx stop srv m
      ≡ reported srv m (HandlerService.make_context type r ctx stop (m srv))
unfolding make_context begin_service HandlerService.make_context as_exception
make_context-HandlerService type r ctx stop srv m = ground arith

-- The service at `srv` runs the handler of the context, and ends well after a stop.
pub record Serves (type : HandlerType) (ctx stop srv : ℕ) (c : Context) (m : Services)
    : Type 0 where
  pub service : m srv ≡ running type 0 ctx stop (Call.started_thread ctx stop ∷ [])
  pub usb_context_is : usb_context c m ≡ ctx
  pub token_is : get_token c m ≡ stop
  pub stopped : (request_stop c m srv).stop_requested ≡ true
  pub ends :
      destroy_service (request_stop c m srv)
      ≡ some (
          Call.started_thread ctx stop
          ∷ Call.interrupted ctx
          ∷ Call.joined ctx
          ∷ Call.exited ctx
          ∷ [])

stops-change_service :
    (srv : ℕ) (s : Service) (m : Services)
    → request_stop (raw_context srv) (change_service m srv s) srv ≡ HandlerService.request_stop s
unfolding request_stop HandlerService.request_stop
stops-change_service srv s m = ground arith

-- The end of a service after its stop was requested.
begun_ends :
    (type : HandlerType) (ctx stop : ℕ)
    → destroy_service
        (HandlerService.request_stop (running type 0 ctx stop (Call.started_thread ctx stop ∷ [])))
      ≡ some (
          Call.started_thread ctx stop
          ∷ Call.interrupted ctx
          ∷ Call.joined ctx
          ∷ Call.exited ctx
          ∷ [])
unfolding HandlerService.request_stop destroy_service shutdown join_handler can_end
begun_ends HandlerType.trivial ctx stop = refl
begun_ends HandlerType.refcounted ctx stop = refl

-- Where the service is new, `make_context` throws libusb's error and leaves the service as it was, or
-- it returns a context whose handler runs on libusb's new context and on the stop source that
-- the context's token is of; a stop requested by the context, followed by the end of the
-- service, interrupts the handler, joins its thread and exits libusb's context, in that order and each
-- once. `make_context_with_options` does the same with the results of `libusb_init_context`.
pub make_context-Serves :
    {InitOption : Type 0} (libusb_init_context : List InitOption → ℤ × ℕ) (type : HandlerType)
    (options : List InitOption) (stop₀ stop srv : ℕ) (m : Services)
    → m srv ≡ make_service stop₀
    → let (r, ctx) = libusb_init_context options in
      (make_context_with_options libusb_init_context type options stop srv m
        ≡ make_context type r ctx stop srv m)
      × (r ≢ Libusb.success
          → make_context type r ctx stop srv m
            ≡ some (change_service m srv (m srv), Exceptional.system_error (make_usb_error_code r)))
      × (r ≡ Libusb.success
          → (m' : Services) × (make_context type r ctx stop srv m
              ≡ some (m', Exceptional.returned (raw_context srv)))
            × Serves type ctx stop₀ srv (raw_context srv) m')
unfolding make_context_with_options make_context request_stop HandlerService.request_stop
    usb_context HandlerService.usb_context get_token HandlerService.get_token
make_context-Serves libusb_init_context type options stop₀ stop srv m new =
    let (r, ctx) = libusb_init_context options in
    let said = make_context-HandlerService type r ctx stop srv m in
    let first = make_context-make_service type r ctx stop₀ stop in
    (
      refl,
      λ bad. ground (arith, said, first, new, bad, ==ℤ_iff r Libusb.success),
      λ ok. (
        change_service m srv (running type 0 ctx stop₀ (Call.started_thread ctx stop₀ ∷ [])),
        ground (arith, said, first, new, ok, ==ℤ_iff r Libusb.success),
        record {
          service = ground arith;
          usb_context_is = ground arith;
          token_is = ground arith;
          stopped = ground arith;
          ends = ap destroy_service (stops-change_service srv _ m) ∙ begun_ends type ctx stop₀;
        },
      ),
    )
