-- ===== src/Ev/HandlerService.antt =====
-- include/co_usb/ev/detail/handler_service.hpp, and `make_context` of include/co_usb/ev/context.hpp.
-- `none` is a call that does not return: it joins a thread whose loop cannot end while references are
-- held. Contexts and stop sources are numbers, given by the call that creates them.
pub mod Lifetime
mod Tests
use co_usb.Prelude.{
  ℕ, Bool, true, false, not, Option, none, some, List, [], ◌∷◌, ◌++◌, ◌==◌, if◌then◌else◌,
}
use co_usb.Prelude.Int.{ℤ, ◌==ℤ◌}
use co_usb.Libusb
use co_usb.Errors.{ErrorCode, no_error, is_error, make_usb_error_code}
use co_usb.Ev.Handlers.{HandlerType, Thread, Handler}
use co_usb.Ev.AnyHandler.{
  AnyHandler, empty_handler, emplace, start_any, ref_any, unref_any, stop_any, valid,
}

-- What the service does to libusb's contexts and to its threads, in order.
pub data Call : Type 0 where
  exited interrupted joined : ℕ → Call
  started_thread : ℕ → ℕ → Call

pub record Service : Type 0 where
  pub m_handler : AnyHandler
  pub m_stop : ℕ
  pub stop_requested : Bool
  pub m_usb_ctx : ℕ
  pub m_started : Bool
  pub calls : List Call

unfoldable pub make_service : ℕ → Service
make_service stop = record {
  m_handler = empty_handler;
  m_stop = stop;
  stop_requested = false;
  m_usb_ctx = 0;
  m_started = false;
  calls = [];
}

-- `r` and `ctx` are the results of `libusb_init`, or of `libusb_init_context` with options.
unfoldable pub init_context : ℤ → ℕ → Service → Service × ErrorCode
init_context r ctx s =
    if not (r ==ℤ Libusb.success)
    then (s, make_usb_error_code r)
    else if not (s.m_usb_ctx == 0)
    then (record s { m_usb_ctx = ctx; calls = s.calls ++ Call.exited s.m_usb_ctx ∷ [] }, no_error)
    else (record s { m_usb_ctx = ctx }, no_error)

-- Whether the loop of a handler ends once a stop is requested, as its counter stands.
unfoldable pub can_end : Handler → Bool
can_end h = elim (h.type) [ HandlerType.trivial ↦ true | HandlerType.refcounted ↦ h.m_counter == 0 ]

-- `m_handler.stop()`, after the stop was requested.
unfoldable pub join_handler : Service → Option Service
unfolding stop_any can_end
join_handler s = elim (s.m_handler.m_storage) [
  | none ↦ some s
  | some h ↦ elim (h.m_thread) [
    | none ↦ some s
    | some t ↦
        if can_end h
        then some (record s {
          m_handler = stop_any s.m_handler;
          calls = s.calls ++ Call.joined t.usb_ctx ∷ [];
        })
        else none
  ]
]

-- `stop` is the source that `std::stop_source{}` makes. The reference that is returned is a temporary
-- in all the library's calls.
unfoldable pub emplace_handler : HandlerType → ℕ → Service → Option Service
unfolding join_handler emplace ref_any unref_any valid
emplace_handler type stop s =
    if valid s.m_handler
    then elim (join_handler (record s { stop_requested = true })) [
      | none ↦ none
      | some s' ↦ some (record s' {
        m_stop = stop;
        stop_requested = false;
        m_handler = unref_any (ref_any (emplace type s'.m_handler));
      })
    ]
    else some (record s { m_handler = unref_any (ref_any (emplace type s.m_handler)) })

-- A token of the stop source is the number of the source.
unfoldable pub get_token : Service → ℕ
get_token s = s.m_stop

-- The service while the reference that `handler` returns lives.
unfoldable pub handler : Service → Service
unfolding ref_any
handler s = record s { m_handler = ref_any s.m_handler }

unfoldable pub started : Service → Bool
started s = s.m_started

unfoldable pub usb_context : Service → ℕ
usb_context s = s.m_usb_ctx

unfoldable pub request_stop : Service → Service
request_stop s = record s {
  calls = s.calls ++ Call.interrupted s.m_usb_ctx ∷ [];
  stop_requested = true;
}

unfoldable pub start : Service → Service × Bool
unfolding start_any
start s =
    if s.m_started
    then (s, true)
    else let (handler, ok) = start_any s.m_usb_ctx s.m_stop s.m_handler in
      (
        record s {
          m_handler = handler;
          m_started = ok;
          calls = if ok then s.calls ++ Call.started_thread s.m_usb_ctx s.m_stop ∷ [] else s.calls;
        },
        ok,
      )

unfoldable pub shutdown : Service → Option Service
unfolding join_handler
shutdown s = join_handler (record s { stop_requested = true })

-- The destructor.
unfoldable pub destroy_service : Service → Option (List Call)
unfolding shutdown
destroy_service s = elim (shutdown s) [
  | none ↦ none
  | some s' ↦ some (s'.calls ++ Call.exited s'.m_usb_ctx ∷ [])
]

-- The service that `use_service` gives, with the error that goes to the error protocol.
unfoldable pub make_context : HandlerType → ℤ → ℕ → ℕ → Service → Option (Service × ErrorCode)
unfolding init_context emplace_handler start
make_context type r ctx stop s =
    let (s₁, ec) = init_context r ctx s in
    if is_error ec then some (s₁, ec) else elim (emplace_handler type stop s₁) [
      | none ↦ none
      | some s₂ ↦ some ((start s₂).0, no_error)
    ]

-- The error is thrown.
unfoldable pub get_handler_service : ℤ → ℕ → ℕ → Service → Option (Service × ErrorCode)
unfolding init_context emplace_handler start started
get_handler_service r ctx stop s =
    let (s₁, ec) = init_context r ctx s in
    if started s
    then some (s, no_error)
    else if is_error ec
    then some (s₁, ec)
    else elim (emplace_handler HandlerType.refcounted stop s₁) [
      | none ↦ none
      | some s₂ ↦ some ((start s₂).0, no_error)
    ]
