-- ===== src/Hotplug/Oneshot/Outcome.antt =====
-- How a one-shot hotplug call ends.
use co_usb.Prelude.{ℕ, ◌≡◌, ◌≢◌, refl, true, false, [], ◌∷◌, ==_iff, arith}
use co_usb.Prelude.Int.{ℤ, ==ℤ_iff}
use co_usb.Libusb
use co_usb.Errors.{no_error, operation_canceled, make_usb_error_code}
use co_usb.Hotplug.Flags.{FlagType, no_flags}
use co_usb.Hotplug.Oneshot.{
  Oneshot, oneshot_start, oneshot_await_suspend, oneshot_callback, oneshot_stop,
  oneshot_await_resume,
}

-- The call that has registered its callback and sleeps.
abbrev pub suspended : ℕ → ℕ → Oneshot
suspended h handle = (oneshot_await_suspend h false Libusb.success handle oneshot_start).0

-- A one-shot call that sleeps with a handle, which is not 0, is posted once by the hotplug event, with its event and device, and
-- once by a stop request before that, which deregisters the callback and cancels the call; a stop
-- requested before it suspends, and libusb's refusal of the callback, end it at once with the error.
pub oneshot_ends :
    (h handle dev : ℕ) (ev : FlagType) (r : ℤ)
    → handle ≢ 0
    → r ≢ Libusb.success
    → let fired = oneshot_callback dev ev (suspended h handle) in
      let stopped = oneshot_stop (suspended h handle) in
      let early = oneshot_await_suspend h true Libusb.success handle (oneshot_stop oneshot_start) in
      let refused = oneshot_await_suspend h false r handle oneshot_start in
      ((fired.posted ≡ h ∷ []) × (oneshot_await_resume fired ≡ (no_error, ev, dev)))
      × ((stopped.posted ≡ h ∷ [])
          × (stopped.deregistered ≡ handle ∷ [])
          × (oneshot_await_resume stopped ≡ (operation_canceled, no_flags, 0)))
      × ((early.1 ≡ true) × (oneshot_await_resume early.0 ≡ (operation_canceled, no_flags, 0)))
      × ((refused.1 ≡ true)
          × (oneshot_await_resume refused.0 ≡ (make_usb_error_code r, no_flags, 0)))
unfolding oneshot_await_suspend oneshot_start oneshot_callback oneshot_stop oneshot_await_resume
oneshot_ends h handle dev ev r z n =
    let nought = ==_iff handle 0 in
    let bad = ==ℤ_iff r Libusb.success in
    (
      (refl, refl),
      (ground (arith, z, nought), ground (arith, z, nought), ground (arith, z, nought)),
      (refl, refl),
      (ground (arith, n, bad), ground (arith, n, bad)),
    )

-- For a handle that is not 0, a stop request that comes after the hotplug event, while the call is
-- still there, posts the same
-- continuation a second time, deregisters the callback that libusb has removed, and the device is lost
-- to the error.
pub oneshot_stop-callback :
    (h handle dev : ℕ) (ev : FlagType)
    → handle ≢ 0
    → let after = oneshot_stop (oneshot_callback dev ev (suspended h handle)) in
      (after.posted ≡ h ∷ h ∷ [])
      × (after.deregistered ≡ handle ∷ [])
      × (oneshot_await_resume after ≡ (operation_canceled, no_flags, 0))
unfolding oneshot_await_suspend oneshot_start oneshot_callback oneshot_stop oneshot_await_resume
oneshot_stop-callback h handle dev ev z =
    let nought = ==_iff handle 0 in
    (ground (arith, z, nought), ground (arith, z, nought), ground (arith, z, nought))
