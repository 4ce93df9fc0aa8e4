-- ===== src/Hotplug.antt =====
-- include/co_usb/hotplug: waiting for devices to arrive.
pub mod DeviceAcceptor
pub mod Oneshot
pub mod Flags
