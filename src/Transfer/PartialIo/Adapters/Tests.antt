-- ===== src/Transfer/PartialIo/Adapters/Tests.antt =====
-- A bulk reader of two transfers with one buffer.
use co_usb.Prelude.{◌≡◌, refl, true, false, some, take}
use co_usb.Prelude.Int.{pos}
use co_usb.Transfer.Record.{TransferType, Store}
use co_usb.Transfer.Samples.{store, three, taken}
use co_usb.Transfer.Sequence.{resources}
use co_usb.Transfer.Operations.Filled.{Ready, holds}
use co_usb.Transfer.Operations.Samples.{libusb, libusb-IsDocumented, two_transfers, ep}
use co_usb.Transfer.Partial.Run.{Sys}
use co_usb.Transfer.PartialIo.{pending, transfers_used}
use co_usb.Transfer.PartialIo.Adapters.{view_of, bulk_partial_io, read_some, write_some}
use co_usb.Transfer.PartialIo.Adapters.Ready.{submit-bulk_partial_io}

held : holds 2 (resources two_transfers) ≡ true
unfolding holds co_usb.Transfer.Sequence.transfer_of
held = refl

submit-bulk_partial_io_example :
    (m' : Store) × (bulk_partial_io libusb two_transfers ep (pos 100) store ≡ some m')
    × (s : Sys) × (read_some 1 two_transfers three m' false 2 taken ≡ pending s)
    × (write_some 1 two_transfers three m' false 2 taken ≡ pending s)
    × (s.flying ≡ take (transfers_used (view_of two_transfers) three) (view_of two_transfers))
    × Ready ep (pos 100) TransferType.bulk (s.store 2)
submit-bulk_partial_io_example =
    submit-bulk_partial_io libusb libusb-IsDocumented two_transfers ep (pos 100) store 1 2 three
      taken (λ e. cc e) (λ j _ _. refl) 2 held
