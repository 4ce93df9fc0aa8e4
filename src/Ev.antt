-- ===== src/Ev.antt =====
-- include/co_usb/ev: the handlers that run libusb's event loop, and the service that owns one.
pub mod Handlers
pub mod AnyHandler
pub mod HandlerRef
pub mod HandlerService
pub mod Context
