-- ===== src/Transfer/Operations/Tests.antt =====
-- The operations on two transfers, with filling functions that do what libusb documents.
use co_usb.Prelude.{◌≡◌, length}
use co_usb.Prelude.Int.{pos}
use co_usb.Transfer.Record.{TransferType}
use co_usb.Transfer.Samples.{store}
use co_usb.Transfer.Operations.{
  prefill_bulk, prefill_interrupt, prefill_isochronous, prefill_bulk_stream,
}
use co_usb.Transfer.Operations.Filled.{Leaves, Ready, prefill_lem}
use co_usb.Transfer.Operations.Samples.{libusb, libusb-IsDocumented, two_transfers, ep}

prefill_lem_example :
    Leaves
      (Ready ep (pos 100) TransferType.bulk)
      two_transfers
      store
      (prefill_bulk libusb two_transfers ep (pos 100) store)
    × Leaves
        (Ready ep (pos 100) TransferType.interrupt)
        two_transfers
        store
        (prefill_interrupt libusb two_transfers ep (pos 100) store)
    × Leaves
        (λ t. Ready ep (pos 100) TransferType.isochronous t × (length t.packets ≡ 2))
        two_transfers
        store
        (prefill_isochronous libusb two_transfers ep 2 (pos 100) store)
    × Leaves
        (λ t. Ready ep (pos 100) TransferType.bulk_stream t × (t.stream_id ≡ 2))
        two_transfers
        store
        (prefill_bulk_stream libusb two_transfers ep 2 (pos 100) store)
prefill_lem_example = prefill_lem libusb libusb-IsDocumented two_transfers ep 2 (pos 100) store
