-- ===== src/Errors.antt =====
-- include/co_usb/usb_error.hpp, and the error codes of <system_error> that the library makes. A
-- `static_cast` of an `int` to `usb_error` keeps the number, so the makers take the number.
use Prim.Native.String.{String}
use co_usb.Prelude.{Bool, not}
use co_usb.Prelude.Int.{ℤ, pos, negsuc, ◌==ℤ◌}
use co_usb.Libusb

-- The categories: those of <system_error>, that of usb_error.hpp and that of status.hpp.
pub data Category : Type 0 where
  system generic usb transfer : Category

pub record ErrorCode : Type 0 where
  pub value : ℤ
  pub category : Category

-- `std::error_code{}`.
abbrev pub no_error : ErrorCode
no_error = record { value = pos 0; category = Category.system }

-- `(bool) ec`.
abbrev pub is_error : ErrorCode → Bool
is_error ec = not (ec.value ==ℤ pos 0)

-- `std::make_error_code` of the conditions used, with the numbers of <errno.h> on Linux.
abbrev pub operation_canceled : ErrorCode
operation_canceled = record { value = pos 125; category = Category.generic }

abbrev pub operation_in_progress : ErrorCode
operation_in_progress = record { value = pos 115; category = Category.generic }

abbrev pub invalid_argument : ErrorCode
invalid_argument = record { value = pos 22; category = Category.generic }

pub data UsbError : Type 0 where
  success io_error invalid_param access_error no_device not_found : UsbError
  resource_busy timed_out overflow broken_pipe interrupted : UsbError
  out_of_memory not_supported unknown : UsbError

-- The values that libusb.h documents for `libusb_error`.
unfoldable pub usb_error_value : UsbError → ℤ
usb_error_value success = Libusb.success
usb_error_value io_error = negsuc 0
usb_error_value invalid_param = negsuc 1
usb_error_value access_error = negsuc 2
usb_error_value no_device = negsuc 3
usb_error_value not_found = negsuc 4
usb_error_value resource_busy = negsuc 5
usb_error_value timed_out = negsuc 6
usb_error_value overflow = negsuc 7
usb_error_value broken_pipe = negsuc 8
usb_error_value interrupted = negsuc 9
usb_error_value out_of_memory = negsuc 10
usb_error_value not_supported = negsuc 11
usb_error_value unknown = negsuc 98

abbrev pub make_usb_error_code : ℤ → ErrorCode
make_usb_error_code e = record { value = e; category = Category.usb }

-- `usb_error_category().name()`, and `message`, which asks `libusb_strerror`.
unfoldable pub usb_category_name : String
usb_category_name = "co_usb usb error"

unfoldable pub usb_category_message : (ℤ → String) → ℤ → String
usb_category_message libusb_strerror v = libusb_strerror v
