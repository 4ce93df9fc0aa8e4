-- ===== src/Wrapper/DeviceHandle/Opened/Tests.antt =====
-- `open_device` of a triplet on a new service, whose context is 6.
use co_usb.Prelude.{ℕ, ◌≡◌, true, false, inl, inr, [], ◌∷◌}
use co_usb.Prelude.Int.{ℤ, pos, ◌==ℤ◌}
use co_usb.Libusb
use co_usb.Errors.{make_usb_error_code}
use co_usb.Ev.Handlers.{HandlerType}
use co_usb.Ev.HandlerService.{Call, make_service}
use co_usb.Ev.HandlerService.Lifetime.{running}
use co_usb.Wrapper.DeviceTriplet.{DeviceTriplet}
use co_usb.Wrapper.ErrorProtocol.{as_optional}
use co_usb.Wrapper.ErrorProtocol.Reports.{as_optional_reports}
use co_usb.Wrapper.DeviceHandle.{open_device_by_triplet}
use co_usb.Wrapper.DeviceHandle.Opened.{Opens, handle_or_unknown, open_device_by_triplet_lem}

abbrev mock : DeviceTriplet
mock = record { vid = pos 0x9f9f; pid = pos 0x9f9f; dev_class = pos 0 }

-- The handle is the number of the context.
abbrev open_with_vid_pid : ℕ → ℤ → ℤ → ℕ
open_with_vid_pid ctx _ _ = ctx

open_device_by_triplet_lem_example :
    let opens = open_device_by_triplet open_with_vid_pid as_optional mock in
    let opened = inr (handle_or_unknown 6) in
    ((pos 0 ==ℤ Libusb.success) ≡ true
      → Opens as_optional_reports open_with_vid_pid
          (opens (pos 0) 6 2 (make_service 1))
          (running HandlerType.refcounted 0 6 1 (Call.started_thread 6 1 ∷ []))
          opened)
    × ((pos 0 ==ℤ Libusb.success) ≡ false
        → Opens as_optional_reports open_with_vid_pid
            (opens (pos 0) 6 2 (make_service 1))
            (make_service 1)
            (inl (make_usb_error_code (pos 0))))
    × Opens as_optional_reports open_with_vid_pid
        (opens (pos 0) 8 2 (running HandlerType.trivial 0 6 1 []))
        (running HandlerType.trivial 0 6 1 [])
        opened
open_device_by_triplet_lem_example =
    open_device_by_triplet_lem as_optional_reports open_with_vid_pid mock (pos 0) 6 8 1 2 0
      HandlerType.trivial []
