-- ===== src/Transfer/CompleteIo/Adapters/Tests.antt =====
-- A read without buffers ends at once; a bulk reader of two transfers with three buffers.
use co_usb.Prelude.{ℕ, ◌%◌, ◌≡◌, refl, true, false, some, List, [], length}
use co_usb.Prelude.Int.{pos}
use co_usb.Prelude.Words.{size_mod}
use co_usb.Errors.{no_error, is_error}
use co_usb.Transfer.Record.{TransferType, Store}
use co_usb.Transfer.Sequence.{resources}
use co_usb.Transfer.Operations.Filled.{Ready, holds}
use co_usb.Transfer.Partial.Run.{Completion}
use co_usb.Transfer.Partial.Success.{bytes_of}
use co_usb.Transfer.Complete.{await_resume}
use co_usb.Transfer.Complete.Run.{Sys, Run}
use co_usb.Transfer.Samples.{store, three, taken}
use co_usb.Transfer.Operations.Samples.{libusb, libusb-IsDocumented, two_transfers, ep}
use co_usb.Transfer.CompleteIo.{finished, pending, complete_submit}
use co_usb.Transfer.PartialIo.Adapters.{view_of}
use co_usb.Transfer.CompleteIo.Adapters.{bulk_complete_io, read, write}
use co_usb.Transfer.CompleteIo.Adapters.Ready.{read-bulk_complete_io}

read_nothing : read 1 two_transfers [] 512 store false 2 taken ≡ finished no_error 0
unfolding read complete_submit co_usb.Transfer.Complete.await_ready
    co_usb.Transfer.Complete.make_awaitable co_usb.Transfer.Complete.await_resume
    co_usb.Transfer.Complete.sum_totals view_of co_usb.Transfer.Sequence.transfer_of
read_nothing = refl

read-bulk_complete_io_example :
    (m' : Store) × (bulk_complete_io libusb two_transfers ep (pos 100) store ≡ some m')
    × (s : Sys) × (read 1 two_transfers three 16 m' false 2 taken ≡ pending s)
    × (write 1 two_transfers three 16 m' false 2 taken ≡ pending s)
    × ((p : ℕ)
        → holds p (resources two_transfers) ≡ true
        → Ready ep (pos 100) TransferType.bulk (s.store p))
    × ((cs : List Completion) (u : Sys)
        → Run s cs u
        → u.flying ≡ []
        → is_error u.self.ec ≡ false
        → (length u.self.buf_current ≡ 0)
          × (await_resume u.self ≡ (u.self.ec, bytes_of cs % size_mod)))
unfolding view_of
read-bulk_complete_io_example =
    read-bulk_complete_io libusb libusb-IsDocumented two_transfers ep (pos 100) store 1 2 16 three
      taken (λ t. refl) (λ e. cc e) (λ e. cc e) (λ j p q. refl)
