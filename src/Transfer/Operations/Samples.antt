-- ===== src/Transfer/Operations/Samples.antt =====
-- Two transfers, an endpoint, and filling functions that do what libusb documents.
use co_usb.Prelude.{ℕ, zero, suc, ◌≡◌, refl, ap, List, [], ◌∷◌, length}
use co_usb.Prelude.Int.{pos}
use co_usb.Transfer.Record.{Transfer, TransferType, Packet}
use co_usb.Transfer.Endpoint.{Direction, Endpoint}
use co_usb.Transfer.Sequence.{TransferResource, TransferSequence}
use co_usb.Transfer.Operations.{FillArguments, FillFunctions}
use co_usb.Transfer.Operations.Filled.{IsFilled, IsDocumented}

abbrev fill : TransferType → ℕ → FillArguments → Transfer → Transfer
fill kind ep a t = record t {
  dev_handle = a.dev_handle;
  endpoint = ep;
  type = kind;
  timeout = a.timeout;
  buffer = 0;
  length = 0;
}

abbrev repeat : ℕ → Packet → List Packet
repeat zero p = []
repeat (suc n) p = p ∷ repeat n p

length-repeat : (n : ℕ) (p : Packet) → length (repeat n p) ≡ n
length-repeat zero p = refl
length-repeat (suc n) p = ap suc (length-repeat n p)

abbrev pub libusb : FillFunctions
libusb = record {
  fill_control = λ a t. fill TransferType.control 0 a t;
  fill_bulk = λ a t. fill TransferType.bulk a.endpoint a t;
  fill_interrupt = λ a t. fill TransferType.interrupt a.endpoint a t;
  fill_isochronous = λ a t. record (fill TransferType.isochronous a.endpoint a t) {
    packets = repeat a.iso_packets (record { actual_length = 0; status = pos 0 });
  };
  fill_bulk_stream =
      λ a t. record (fill TransferType.bulk_stream a.endpoint a t) { stream_id = a.stream_id };
}

filled :
    (kind : TransferType) (ep : ℕ) (a : FillArguments) (t : Transfer)
    → IsFilled kind a.dev_handle ep a.timeout (fill kind ep a t)
filled kind ep a t = record { dev_handle = refl; endpoint = refl; type = refl; timeout = refl }

pub libusb-IsDocumented : IsDocumented libusb
libusb-IsDocumented = record {
  control = λ a t. filled TransferType.control 0 a t;
  bulk = λ a t. filled TransferType.bulk a.endpoint a t;
  interrupt = λ a t. filled TransferType.interrupt a.endpoint a t;
  isochronous = λ a t. (
    record { dev_handle = refl; endpoint = refl; type = refl; timeout = refl },
    length-repeat a.iso_packets (record { actual_length = 0; status = pos 0 }),
  );
  bulk_stream =
      λ a t. (record { dev_handle = refl; endpoint = refl; type = refl; timeout = refl }, refl);
}

abbrev pub two_transfers : TransferSequence
two_transfers = TransferSequence.range (TransferResource.pointer 1 ∷ TransferResource.getter 2 ∷ [])

abbrev pub ep : Endpoint Direction.inward
ep = record { devh = 5; addr = 0x83 }
