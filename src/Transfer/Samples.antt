-- ===== src/Transfer/Samples.antt =====
-- Concrete transfers and buffers for the tests of the awaitables.
use co_usb.Prelude.{ℕ, List, [], ◌∷◌}
use co_usb.Prelude.Int.{ℤ, pos}
use co_usb.Libusb
use co_usb.Transfer.Record.{Transfer, TransferType, Callback, Buffer, Store}

abbrev pub fresh : Transfer
fresh = record {
  dev_handle = 1;
  endpoint = 0x81;
  type = TransferType.bulk;
  timeout = 0;
  status = pos 0;
  length = 0;
  actual_length = 0;
  callback = Callback.none_set;
  user_data = 0;
  buffer = 0;
  packets = [];
  stream_id = 0;
}

abbrev pub store : Store
store _ = fresh

abbrev pub two : List ℕ
two = 1 ∷ 2 ∷ []

abbrev pub three : List Buffer
three =
    record { data_ptr = 4096; size = 64 }
    ∷ record { data_ptr = 8192; size = 64 }
    ∷ record { data_ptr = 12288; size = 64 }
    ∷ []

abbrev pub taken : ℕ → ℤ
taken _ = Libusb.success
