-- ===== src/Hotplug/Oneshot.antt =====
-- include/co_usb/hotplug/oneshot_hotplug.hpp and detail/hotplug_awaitable.hpp: the variables of one
-- call, the continuations that it posts and the handles that it deregisters. `r` and `handle` are the
-- results of `libusb_hotplug_register_callback`, whose callback is a step of its own here.
pub mod Outcome
mod Tests
use co_usb.Prelude.{ℕ, Bool, true, false, not, List, [], ◌∷◌, ◌++◌, ◌==◌, if◌then◌else◌}
use co_usb.Prelude.Int.{ℤ, ◌==ℤ◌}
use co_usb.Libusb
use co_usb.Errors.{ErrorCode, no_error, is_error, operation_canceled, make_usb_error_code}
use co_usb.Hotplug.Flags.{FlagType, no_flags}

pub record Oneshot : Type 0 where
  pub handle : ℕ
  pub ec : ErrorCode
  pub event : FlagType
  pub dev : ℕ
  pub cont : ℕ
  pub posted : List ℕ
  pub deregistered : List ℕ

unfoldable pub oneshot_start : Oneshot
oneshot_start = record {
  handle = 0;
  ec = no_error;
  event = no_flags;
  dev = 0;
  cont = 0;
  posted = [];
  deregistered = [];
}

unfoldable pub oneshot_await_ready : Bool
oneshot_await_ready = false

-- Whether `h` is returned.
unfoldable pub oneshot_await_suspend : ℕ → Bool → ℤ → ℕ → Oneshot → Oneshot × Bool
oneshot_await_suspend h stop_requested r handle s =
    if stop_requested
    then (record s { ec = operation_canceled }, true)
    else if not (r ==ℤ Libusb.success)
    then (record s { cont = h; ec = make_usb_error_code r }, true)
    else (record s { cont = h; handle = handle }, false)

-- The callback; libusb deregisters it, for it returns 1.
unfoldable pub oneshot_callback : ℕ → FlagType → Oneshot → Oneshot
oneshot_callback dev ev s = record s { event = ev; dev = dev; posted = s.posted ++ s.cont ∷ [] }

-- The stop callback.
unfoldable pub oneshot_stop : Oneshot → Oneshot
oneshot_stop s = if s.handle == 0 then s else record s {
  deregistered = s.deregistered ++ s.handle ∷ [];
  ec = operation_canceled;
  posted = s.posted ++ s.cont ∷ [];
}

-- The error, the event and the device.
unfoldable pub oneshot_await_resume : Oneshot → ErrorCode × FlagType × ℕ
oneshot_await_resume s = if is_error s.ec then (s.ec, no_flags, 0) else (no_error, s.event, s.dev)
