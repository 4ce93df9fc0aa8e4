-- ===== src/Transfer/PartialIo/Adapters.antt =====
-- The classes of include/co_usb/transfer/partial_io.hpp that fill the transfers of a sequence, and read
-- or write through it.
pub mod Ready
mod Tests
use co_usb.Prelude.{ℕ, Bool, Option, List, map}
use co_usb.Prelude.Int.{ℤ}
use co_usb.Transfer.Record.{Buffer, Store}
use co_usb.Transfer.Endpoint.{Direction, Endpoint}
use co_usb.Transfer.Sequence.{TransferSequence, resources, transfer_of}
use co_usb.Transfer.Operations.{
  FillFunctions, prefill_control, prefill_bulk, prefill_interrupt, prefill_isochronous,
  prefill_bulk_stream,
}
use co_usb.Transfer.PartialIo.{Submission, submit}

-- The transfers that a view of the sequence gives.
unfoldable pub view_of : TransferSequence → List ℕ
unfolding transfer_of
view_of seq = map transfer_of (resources seq)

-- The constructors, for what they do to the transfers.
module _ (libusb : FillFunctions) {d : Direction} (seq : TransferSequence) (ep : Endpoint d) where
  unfoldable pub control_partial_io : Bool → ℤ → Store → Option Store
  unfolding prefill_control
  control_partial_io asserts timeout_ms m = prefill_control libusb asserts seq ep timeout_ms m

  unfoldable pub bulk_partial_io : ℤ → Store → Option Store
  unfolding prefill_bulk
  bulk_partial_io timeout_ms m = prefill_bulk libusb seq ep timeout_ms m

  unfoldable pub interrupt_partial_io : ℤ → Store → Option Store
  unfolding prefill_interrupt
  interrupt_partial_io timeout_ms m = prefill_interrupt libusb seq ep timeout_ms m

  unfoldable pub isochronous_partial_io : ℕ → ℤ → Store → Option Store
  unfolding prefill_isochronous
  isochronous_partial_io iso_packets timeout_ms m =
      prefill_isochronous libusb seq ep iso_packets timeout_ms m

  unfoldable pub bulk_stream_partial_io : ℕ → ℤ → Store → Option Store
  unfolding prefill_bulk_stream
  bulk_stream_partial_io stream_id timeout_ms m =
      prefill_bulk_stream libusb seq ep stream_id timeout_ms m

-- `read_some`, for an endpoint of direction `in`, and `write_some`, for one of direction `out`.
unfoldable pub read_some :
    ℕ → TransferSequence → List Buffer → Store → Bool → ℕ → (ℕ → ℤ) → Submission
unfolding submit view_of
read_some this seq buffers m stop_requested h results =
    submit this (view_of seq) buffers m stop_requested h results

unfoldable pub write_some :
    ℕ → TransferSequence → List Buffer → Store → Bool → ℕ → (ℕ → ℤ) → Submission
unfolding submit view_of
write_some this seq buffers m stop_requested h results =
    submit this (view_of seq) buffers m stop_requested h results
