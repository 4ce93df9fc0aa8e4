-- ===== src/Wrapper.antt =====
-- include/co_usb/wrapper: owners of libusb's handles, and the types that describe devices.
pub mod DeviceTriplet
pub mod ErrorProtocol
pub mod Interface
pub mod DeviceRef
pub mod DriverGuard
pub mod DeviceHandle
pub mod DeviceHandleSource
