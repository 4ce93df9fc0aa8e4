-- ===== src/Transfer/Operations.antt =====
-- include/co_usb/transfer/operations.hpp. What libusb's filling functions do to a transfer is an
-- argument. `std::chrono::milliseconds::count` is an integer that becomes an `unsigned int`.
pub mod Filled
pub mod Samples
mod Tests
use co_usb.Prelude.{
  ℕ, ◌-◌, ◌%◌, Bool, true, false, not, ◌&&◌, Option, none, List, [], ◌∷◌, ◌++◌, ◌==◌, if◌then◌else◌,
}
use co_usb.Prelude.Int.{ℤ, pos, negsuc}
use co_usb.Prelude.Words.{int_mod}
use co_usb.Transfer.Record.{Transfer, TransferType, Store, update}
use co_usb.Transfer.Endpoint.{Direction, Endpoint}
use co_usb.Transfer.Sequence.{TransferSequence, for_all}

abbrev pub unsigned_of : ℤ → ℕ
unsigned_of (pos n) = n % int_mod
unsigned_of (negsuc n) = int_mod - 1 - n % int_mod

-- The arguments that the source gives to a `libusb_fill_*` function besides the transfer. The buffer,
-- the length, the callback and the user data are always null here.
pub record FillArguments : Type 0 where
  pub dev_handle : ℕ
  pub endpoint : ℕ
  pub iso_packets : ℕ
  pub stream_id : ℕ
  pub timeout : ℕ

-- `libusb_fill_control_transfer` (which takes no endpoint), `libusb_fill_bulk_transfer` and so on.
pub record FillFunctions : Type 0 where
  pub fill_control : FillArguments → Transfer → Transfer
  pub fill_bulk : FillArguments → Transfer → Transfer
  pub fill_interrupt : FillArguments → Transfer → Transfer
  pub fill_isochronous : FillArguments → Transfer → Transfer
  pub fill_bulk_stream : FillArguments → Transfer → Transfer

-- The transfers that `libusb_cancel_transfer` is called for, after those of `cancelled`.
unfoldable pub cancel_transfer : TransferSequence → List ℕ → Option (List ℕ)
unfolding for_all
cancel_transfer tfer_seq cancelled = for_all tfer_seq (λ tfer l. l ++ tfer ∷ []) cancelled

abbrev pub is_out : Direction → Bool
is_out Direction.out = true
is_out _ = false

abbrev pub is_in : Direction → Bool
is_in Direction.inward = true
is_in _ = false

-- One call of a filling function for each transfer of the sequence.
unfoldable pub fill_all : (Transfer → Transfer) → TransferSequence → Store → Option Store
unfolding for_all
fill_all fill tfer_seq m = for_all tfer_seq (λ tfer l. update l tfer (fill (l tfer))) m

module _ (libusb : FillFunctions) {d : Direction} where
  -- `asserts` says whether the program is built with assertions; a failed one is `none`.
  unfoldable pub prefill_control : Bool → TransferSequence → Endpoint d → ℤ → Store → Option Store
  prefill_control asserts tfer_seq ep timeout_ms m =
      if asserts && not (ep.addr == 0x00 && is_out d)
      then none
      else if asserts && not (ep.addr == 0x80 && is_in d)
      then none
      else fill_all
          (libusb.fill_control (record {
            dev_handle = ep.devh;
            endpoint = 0;
            iso_packets = 0;
            stream_id = 0;
            timeout = unsigned_of timeout_ms;
          }))
          tfer_seq m

  unfoldable pub prefill_bulk : TransferSequence → Endpoint d → ℤ → Store → Option Store
  prefill_bulk tfer_seq ep timeout_ms m =
      fill_all
        (libusb.fill_bulk (record {
          dev_handle = ep.devh;
          endpoint = ep.addr;
          iso_packets = 0;
          stream_id = 0;
          timeout = unsigned_of timeout_ms;
        }))
        tfer_seq m

  unfoldable pub prefill_interrupt : TransferSequence → Endpoint d → ℤ → Store → Option Store
  prefill_interrupt tfer_seq ep timeout_ms m =
      fill_all
        (libusb.fill_interrupt (record {
          dev_handle = ep.devh;
          endpoint = ep.addr;
          iso_packets = 0;
          stream_id = 0;
          timeout = unsigned_of timeout_ms;
        }))
        tfer_seq m

  -- The number of packets is not negative here.
  unfoldable pub prefill_isochronous : TransferSequence → Endpoint d → ℕ → ℤ → Store → Option Store
  prefill_isochronous tfer_seq ep iso_packets timeout_ms m =
      fill_all
        (libusb.fill_isochronous (record {
          dev_handle = ep.devh;
          endpoint = ep.addr;
          iso_packets = iso_packets;
          stream_id = 0;
          timeout = unsigned_of timeout_ms;
        }))
        tfer_seq m

  unfoldable pub prefill_bulk_stream : TransferSequence → Endpoint d → ℕ → ℤ → Store → Option Store
  prefill_bulk_stream tfer_seq ep stream_id timeout_ms m =
      fill_all
        (libusb.fill_bulk_stream (record {
          dev_handle = ep.devh;
          endpoint = ep.addr;
          iso_packets = 0;
          stream_id = stream_id;
          timeout = unsigned_of timeout_ms;
        }))
        tfer_seq m
