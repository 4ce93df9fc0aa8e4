-- ===== src/Ev/HandlerService/Lifetime.antt =====
-- The event handler of a service from its first start to the service's end.
use co_usb.Prelude.{
  ℕ, ◌≡◌, ◌≢◌, refl, ap, true, false, none, some, List, [], ◌∷◌, ◌++◌, append_assoc, ==_iff,
  if◌then◌else◌, arith,
}
use co_usb.Prelude.Int.{ℤ, ◌==ℤ◌}
use co_usb.Prelude.Words.{inc_size, dec_size}
use co_usb.Libusb
use co_usb.Errors.{no_error, make_usb_error_code}
use co_usb.Ev.Handlers.{HandlerType, Thread, Handler, new_handler, ref_handler, unref_handler}
use co_usb.Ev.Handlers
use co_usb.Ev.AnyHandler.{
  AnyHandler, emplace, start_any, ref_any, unref_any, stop_any, valid, destroy,
}
use co_usb.Ev.HandlerService.{
  Call, Service, make_service, init_context, can_end, join_handler, emplace_handler, start,
  shutdown, destroy_service, make_context, get_handler_service, started,
}

-- A service whose handler runs on its context, with the handler's counter.
abbrev pub running : HandlerType → ℕ → ℕ → ℕ → List Call → Service
running type counter ctx stop calls = record {
  m_handler = record {
    m_storage = some (record {
      type = type;
      m_counter = counter;
      m_thread = some (record { usb_ctx = ctx; stop = stop });
    });
  };
  m_stop = stop;
  stop_requested = false;
  m_usb_ctx = ctx;
  m_started = true;
  calls = calls;
}

-- A service with a handler that no thread runs, but that counts as started.
abbrev pub never_run : HandlerType → ℕ → ℕ → List Call → Service
never_run type ctx stop calls = record (running type 0 ctx stop calls) {
  m_handler = record { m_storage = some (new_handler type) };
}

fresh_handler :
    (type : HandlerType) (a : AnyHandler)
    → unref_any (ref_any (emplace type a)) ≡ record { m_storage = some (new_handler type) }
unfolding unref_any ref_any emplace destroy ref_handler unref_handler inc_size dec_size
fresh_handler HandlerType.trivial a = refl
fresh_handler HandlerType.refcounted a = refl

-- The first `make_context` of a new service starts the handler on the new context where
-- libusb gives one, and otherwise reports libusb's error and leaves the service as it was.
pub make_context-make_service :
    (type : HandlerType) (r : ℤ) (ctx stop₀ stop : ℕ)
    → make_context type r ctx stop (make_service stop₀)
      ≡ some (
          if r ==ℤ Libusb.success
          then (running type 0 ctx stop₀ (Call.started_thread ctx stop₀ ∷ []), no_error)
          else (make_service stop₀, make_usb_error_code r))
unfolding make_context make_service init_context emplace_handler start start_any Handlers.start
    valid
make_context-make_service type r ctx stop₀ stop =
    ground (arith, fresh_handler type (record { m_storage = none }))

-- `get_handler_service` starts a reference-counted handler on a new service where libusb gives a
-- context, and throws libusb's error otherwise; called again on the service that it returned, or on
-- one that `make_context` started, it returns the service as it is, whatever the arguments.
pub get_handler_service-make_service :
    (r r' : ℤ) (ctx ctx' stop₀ stop stop' counter : ℕ) (type : HandlerType) (calls : List Call)
    → (get_handler_service r ctx stop (make_service stop₀)
        ≡ some (
            if r ==ℤ Libusb.success
            then (
              running HandlerType.refcounted 0 ctx stop₀ (Call.started_thread ctx stop₀ ∷ []),
              no_error,
            )
            else (make_service stop₀, make_usb_error_code r)))
      × (get_handler_service r' ctx' stop' (running type counter ctx stop calls)
          ≡ some (running type counter ctx stop calls, no_error))
unfolding get_handler_service make_service init_context emplace_handler start start_any
    Handlers.start valid started
get_handler_service-make_service r r' ctx ctx' stop₀ stop stop' counter type calls =
    (ground (arith, fresh_handler HandlerType.refcounted (record { m_storage = none })), refl)

-- Where a service's handler runs on a context that is not null, and its counter is 0, another
-- `make_context` exits the old context before the thread that handles its events has ended and been
-- joined, and reports success; but the new handler has no thread, and neither `start` nor
-- `get_handler_service` gives it one after that.
pub make_context-running :
    (old type : HandlerType) (ctx ctx' stop stop' stop'' : ℕ) (calls : List Call) (r : ℤ)
    → ctx ≢ 0
    → let after =
        never_run type ctx' stop' ((calls ++ Call.exited ctx ∷ []) ++ Call.joined ctx ∷ []) in
      (make_context type Libusb.success ctx' stop' (running old 0 ctx stop calls)
        ≡ some (after, no_error))
      × (start after ≡ (after, true))
      × (get_handler_service r ctx stop'' after ≡ some (after, no_error))
unfolding make_context init_context emplace_handler join_handler can_end start valid stop_any
    Handlers.stop get_handler_service started
make_context-running HandlerType.trivial type ctx ctx' stop stop' stop'' calls r z = (
  ground (
    arith,
    z,
    ==_iff ctx 0,
    fresh_handler type (record { m_storage = some (new_handler HandlerType.trivial) }),
  ),
  refl,
  refl,
)
make_context-running HandlerType.refcounted type ctx ctx' stop stop' stop'' calls r z = (
  ground (
    arith,
    z,
    ==_iff ctx 0,
    fresh_handler type (record { m_storage = some (new_handler HandlerType.refcounted) }),
  ),
  refl,
  refl,
)

-- While a reference to a running reference-counted handler is held, another `make_context` does not
-- return, nor does the service's destructor: each joins a thread that goes on until the references
-- are gone.
pub make_context-held :
    (type : HandlerType) (counter ctx ctx' stop stop' : ℕ) (calls : List Call)
    → counter ≢ 0
    → (make_context type Libusb.success ctx' stop'
          (running HandlerType.refcounted counter ctx stop calls)
        ≡ none)
      × (destroy_service (running HandlerType.refcounted counter ctx stop calls) ≡ none)
unfolding make_context init_context emplace_handler join_handler can_end valid destroy_service
    shutdown
make_context-held type counter ctx ctx' stop stop' calls z =
    (ground (arith, z, ==_iff counter 0), ground (arith, z, ==_iff counter 0))

-- The destructor of a service whose handler runs, with its counter 0, joins the handler's thread
-- and then exits the context it runs on, each once.
pub destroy_service-running :
    (type : HandlerType) (ctx stop : ℕ) (calls : List Call)
    → destroy_service (running type 0 ctx stop calls)
      ≡ some (calls ++ Call.joined ctx ∷ Call.exited ctx ∷ [])
unfolding destroy_service shutdown join_handler can_end
destroy_service-running HandlerType.trivial ctx stop calls = ap some (append_assoc calls _ _)
destroy_service-running HandlerType.refcounted ctx stop calls = ap some (append_assoc calls _ _)
