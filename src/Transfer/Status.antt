-- ===== src/Transfer/Status.antt =====
-- include/co_usb/transfer/status.hpp: the status codes of a transfer and their error category.
use Prim.Native.String.{String}
use co_usb.Prelude.{if◌then◌else◌}
use co_usb.Prelude.Int.{ℤ, pos, ◌==ℤ◌}
use co_usb.Errors.{ErrorCode, Category}

pub data Status : Type 0 where
  completed error timed_out cancelled stall no_device overflow : Status

-- The values that libusb.h documents for `libusb_transfer_status`.
abbrev pub status_value : Status → ℤ
status_value completed = pos 0
status_value error = pos 1
status_value timed_out = pos 2
status_value cancelled = pos 3
status_value stall = pos 4
status_value no_device = pos 5
status_value overflow = pos 6

-- Both overloads of `make_transfer_status`, on the number of the enumerator.
abbrev pub make_transfer_status : ℤ → ErrorCode
make_transfer_status e = record { value = e; category = Category.transfer }

-- The `switch` over the cases in their order, then its `default`.
unfoldable pub message : ℤ → String
message v =
    if v ==ℤ status_value completed
    then "completed"
    else if v ==ℤ status_value error
    then "error"
    else if v ==ℤ status_value cancelled
    then "cancelled"
    else if v ==ℤ status_value stall
    then "device stalled"
    else if v ==ℤ status_value no_device
    then "no such device"
    else if v ==ℤ status_value overflow
    then "data overflow"
    else "unknown"

unfoldable pub transfer_category_name : String
transfer_category_name = "co_usb transfer status"
