-- ===== src/Wrapper/DeviceHandleSource.antt =====
-- include/co_usb/wrapper/concepts/device_handle_source.hpp. The concepts are data types of their cases:
-- an object stands for what its member function returns.
use co_usb.Prelude.{ℕ}

pub data DeviceHandlePointer : Type 0 where
  itself : ℕ → DeviceHandlePointer
  by_get : ℕ → DeviceHandlePointer

pub data DeviceHandleSource : Type 0 where
  pointer : DeviceHandlePointer → DeviceHandleSource
  by_devh : DeviceHandlePointer → DeviceHandleSource

unfoldable pub device_handle_of_pointer : DeviceHandlePointer → ℕ
device_handle_of_pointer (itself devh) = devh
device_handle_of_pointer (by_get devh) = devh

unfoldable pub device_handle_of : DeviceHandleSource → ℕ
unfolding device_handle_of_pointer
device_handle_of (pointer devh_src) = device_handle_of_pointer devh_src
device_handle_of (by_devh devh) = device_handle_of_pointer devh
