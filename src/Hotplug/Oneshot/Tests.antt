-- ===== src/Hotplug/Oneshot/Tests.antt =====
-- A call whose callback has handle 4.
use co_usb.Prelude.{◌≡◌, ◌≢◌, true, false, [], ◌∷◌, arith}
use co_usb.Prelude.Int.{negsuc}
use co_usb.Libusb
use co_usb.Errors.{no_error, operation_canceled, make_usb_error_code}
use co_usb.Hotplug.Flags.{no_flags, event_arrived}
use co_usb.Hotplug.Oneshot.{
  oneshot_start, oneshot_await_suspend, oneshot_callback, oneshot_stop, oneshot_await_resume,
}
use co_usb.Hotplug.Oneshot.Outcome.{suspended, oneshot_ends}

refused : negsuc 5 ≢ Libusb.success
refused = λ e. cc e

oneshot_ends_example :
    let fired = oneshot_callback 9 event_arrived (suspended 100 4) in
    let stopped = oneshot_stop (suspended 100 4) in
    let early = oneshot_await_suspend 100 true Libusb.success 4 (oneshot_stop oneshot_start) in
    let refusal = oneshot_await_suspend 100 false (negsuc 5) 4 oneshot_start in
    ((fired.posted ≡ 100 ∷ []) × (oneshot_await_resume fired ≡ (no_error, event_arrived, 9)))
    × ((stopped.posted ≡ 100 ∷ [])
        × (stopped.deregistered ≡ 4 ∷ [])
        × (oneshot_await_resume stopped ≡ (operation_canceled, no_flags, 0)))
    × ((early.1 ≡ true) × (oneshot_await_resume early.0 ≡ (operation_canceled, no_flags, 0)))
    × ((refusal.1 ≡ true)
        × (oneshot_await_resume refusal.0 ≡ (make_usb_error_code (negsuc 5), no_flags, 0)))
oneshot_ends_example = oneshot_ends 100 4 9 event_arrived (negsuc 5) (λ e. omega (arith, e)) refused
