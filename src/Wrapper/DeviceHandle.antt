-- ===== src/Wrapper/DeviceHandle.antt =====
-- include/co_usb/wrapper/device_handle.hpp. A handle is the pointer in its `unique_ptr`; the list holds
-- the calls of `libusb_close`.
pub mod Opened
pub mod Owners
use co_usb.Prelude.{ℕ, not, Option, none, some, List, [], ◌∷◌, ◌++◌, ◌==◌, if◌then◌else◌}
use co_usb.Prelude.Int.{ℤ, ◌==ℤ◌}
use co_usb.Libusb
use co_usb.Errors.{ErrorCode, UsbError, usb_error_value, is_error, make_usb_error_code}
use co_usb.Wrapper.ErrorProtocol.{ErrorProtocol, Exceptional}
use co_usb.Wrapper.DeviceTriplet.{DeviceTriplet}
use co_usb.Ev.HandlerService.{Service}
use co_usb.Ev.HandlerService

pub record DeviceHandle : Type 0 where
  pub m_storage : ℕ

unfoldable pub get : DeviceHandle → ℕ
get self = self.m_storage

-- `reset`, and the destructor, of the pointer.
unfoldable pub reset : DeviceHandle → List ℕ → DeviceHandle × List ℕ
reset self closed =
    if self.m_storage == 0
    then (self, closed)
    else (record { m_storage = 0 }, closed ++ self.m_storage ∷ [])

unfoldable pub release_handle : DeviceHandle → DeviceHandle × ℕ
release_handle self = (record { m_storage = 0 }, self.m_storage)

unfoldable pub close_handle : DeviceHandle → List ℕ → DeviceHandle × List ℕ
unfolding reset
close_handle self closed = reset self closed

-- From the test of the handle on.
unfoldable pub handle_result : (p : ErrorProtocol) → ℕ → p.return_type DeviceHandle
unfolding usb_error_value
handle_result p devh =
    if devh == 0
    then p.with_error (make_usb_error_code (usb_error_value UsbError.unknown))
    else p.with_success (record { m_storage = devh })

-- By triplet, with what libusb's `libusb_open_device_with_vid_pid` gives.
module _ (open_with_vid_pid : ℕ → ℤ → ℤ → ℕ) where
  -- From what `get_handler_service` gives on; the error that it throws goes past the protocol.
  unfoldable pub open_on :
      (p : ErrorProtocol)
      → DeviceTriplet
      → Option (Service × ErrorCode)
      → Option (Service × Exceptional (p.return_type DeviceHandle))
  unfolding handle_result HandlerService.usb_context
  open_on p triplet none = none
  open_on p triplet (some (srv, ec)) =
      let devh = open_with_vid_pid (HandlerService.usb_context srv) triplet.vid triplet.pid in
      some (
        srv,
        if is_error ec
            then Exceptional.system_error ec
            else Exceptional.returned (handle_result p devh),
      )

  -- `r`, `ctx` and `stop` are what `get_handler_service` takes if it starts the service. `none` is a
  -- call that does not return.
  unfoldable pub open_device_by_triplet :
      (p : ErrorProtocol)
      → DeviceTriplet
      → ℤ
      → ℕ
      → ℕ
      → Service
      → Option (Service × Exceptional (p.return_type DeviceHandle))
  unfolding open_on HandlerService.get_handler_service
  open_device_by_triplet p triplet r ctx stop srv =
      open_on p triplet (HandlerService.get_handler_service r ctx stop srv)

-- By a device reference, where `r` and `devh` are the results of `libusb_open`.
unfoldable pub open_device_by_ref : (p : ErrorProtocol) → ℤ → ℕ → p.return_type DeviceHandle
open_device_by_ref p r devh =
    if not (r ==ℤ Libusb.success)
    then p.with_error (make_usb_error_code r)
    else p.with_success (record { m_storage = devh })
