-- ===== src/Transfer/CompleteIo/Adapters.antt =====
-- The classes of include/co_usb/transfer/complete_io.hpp that fill the transfers of a sequence, and read
-- or write through it. Their `read_some` and `write_some` are those of partial_io.hpp.
pub mod Ready
mod Tests
use co_usb.Prelude.{ℕ, Bool, Option, List}
use co_usb.Prelude.Int.{ℤ}
use co_usb.Errors.{ErrorCode, no_error}
use co_usb.Transfer.Record.{Buffer, Store}
use co_usb.Transfer.Endpoint.{Direction, Endpoint}
use co_usb.Transfer.Sequence.{TransferSequence}
use co_usb.Transfer.Operations.{
  FillFunctions, prefill_control, prefill_bulk, prefill_interrupt, prefill_isochronous,
  prefill_bulk_stream,
}
use co_usb.Transfer.PartialIo.Adapters.{view_of}
use co_usb.Transfer.CompleteIo.{Submission, complete_submit}

-- The constructors, for what they do to the transfers.
module _ (libusb : FillFunctions) {d : Direction} (seq : TransferSequence) (ep : Endpoint d) where
  unfoldable pub control_complete_io : Bool → ℤ → Store → Option Store
  unfolding prefill_control
  control_complete_io asserts timeout_ms m = prefill_control libusb asserts seq ep timeout_ms m

  unfoldable pub bulk_complete_io : ℤ → Store → Option Store
  unfolding prefill_bulk
  bulk_complete_io timeout_ms m = prefill_bulk libusb seq ep timeout_ms m

  unfoldable pub interrupt_complete_io : ℤ → Store → Option Store
  unfolding prefill_interrupt
  interrupt_complete_io timeout_ms m = prefill_interrupt libusb seq ep timeout_ms m

  unfoldable pub isochronous_complete_io : ℕ → ℤ → Store → Option Store
  unfolding prefill_isochronous
  isochronous_complete_io iso_packets timeout_ms m =
      prefill_isochronous libusb seq ep iso_packets timeout_ms m

  unfoldable pub bulk_stream_complete_io : ℕ → ℤ → Store → Option Store
  unfolding prefill_bulk_stream
  bulk_stream_complete_io stream_id timeout_ms m =
      prefill_bulk_stream libusb seq ep stream_id timeout_ms m

-- `read`, for an endpoint of direction `in`, and `write` and `write_eof`, for one of direction `out`.
unfoldable pub read :
    ℕ → TransferSequence → List Buffer → ℕ → Store → Bool → ℕ → (ℕ → ℤ) → Submission
unfolding complete_submit view_of
read this seq buffers limit m stop_requested h results =
    complete_submit this (view_of seq) buffers limit m stop_requested h results

unfoldable pub write :
    ℕ → TransferSequence → List Buffer → ℕ → Store → Bool → ℕ → (ℕ → ℤ) → Submission
unfolding complete_submit view_of
write this seq buffers limit m stop_requested h results =
    complete_submit this (view_of seq) buffers limit m stop_requested h results

unfoldable pub write_eof :
    ℕ → TransferSequence → List Buffer → ℕ → Store → Bool → ℕ → (ℕ → ℤ) → Submission
unfolding complete_submit view_of
write_eof this seq buffers limit m stop_requested h results =
    complete_submit this (view_of seq) buffers limit m stop_requested h results

-- `write_eof` without buffers.
unfoldable pub write_eof_only : ErrorCode
write_eof_only = no_error
