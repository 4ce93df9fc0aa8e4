-- ===== src/Transfer.antt =====
-- include/co_usb/transfer: endpoints, transfer sequences, their operations, and the awaitables that
-- stream a buffer sequence through them.
pub mod Status
pub mod Record
pub mod Pipe
mod Samples
pub mod Endpoint
pub mod Sequence
pub mod Operations
pub mod Partial
pub mod PartialIo
pub mod Complete
pub mod CompleteIo
