-- ===== src/Examples/DeviceLoop/Unplugged.antt =====
-- A `dev_loop` of examples/03-complete-io.cpp whose device is gone when its scope ends.
use co_usb.Prelude.{Bool, ◌&&◌, not, if◌then◌else◌}
use co_usb.Prelude.Int.{ℤ, ◌==ℤ◌}
use co_usb.Libusb
use co_usb.Errors.{make_usb_error_code}
use co_usb.Examples.DeviceLoop.{Outcome, Surroundings}

abbrev fails : ℤ → Bool
fails r = not (r ==ℤ Libusb.success)

-- How a scope ends that attaches the driver if `d`, and releases the interface if `c`.
abbrev scope_end : Bool → Bool → Surroundings → Outcome
scope_end d c r =
    if d && fails r.attach_result
    then Outcome.terminated
    else if c && fails r.release_result
    then Outcome.exception (make_usb_error_code r.release_result)
    else Outcome.returned
