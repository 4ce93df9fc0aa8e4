-- ===== src/Transfer/Partial/Tests.antt =====
-- The awaitable of include/co_usb/transfer/detail/sequence_awaitable.hpp on concrete runs.
use co_usb.Prelude.{refl, [], ◌∷◌, length}
use co_usb.Prelude.Int.{pos}
use co_usb.Errors.{no_error, make_usb_error_code}
use co_usb.Transfer.Record.{Transfer, TransferType, Callback, Buffer}
use co_usb.Transfer.Partial.{Awaitable}
use co_usb.Transfer.Partial.Run.{Sys, Completion, deliver, completes, Run, here, next}
use co_usb.Transfer.Partial.Failure.{Drains, Run-Drains}

-- An isochronous transfer that timed out after its first packet.
abbrev late : Transfer
late = record {
  dev_handle = 1;
  endpoint = 0x81;
  type = TransferType.isochronous;
  timeout = 0;
  status = pos 2;
  length = 64;
  actual_length = 0;
  callback = Callback.sequence_callback;
  user_data = 7;
  buffer = 4096;
  packets =
      record { actual_length = 32; status = pos 0 }
      ∷ record { actual_length = 0; status = pos 2 }
      ∷ [];
  stream_id = 0;
}

abbrev spare : Buffer
spare = record { data_ptr = 8192; size = 64 }

abbrev waiting : Awaitable
waiting = record {
  this = 7;
  view = 1 ∷ [];
  buf_current = spare ∷ [];
  submission_size = 1;
  cont = 9;
  ec = no_error;
  total = 0;
  in_flight = 1;
  posted = [];
}

-- Two transfers in flight under an error, of which one ends.
abbrev failed : Sys
failed = record {
  self = record waiting { ec = make_usb_error_code (pos 5); in_flight = 2 };
  store = λ _. late;
  flying = 1 ∷ 2 ∷ [];
}

abbrev cancelled : Completion
cancelled = record { status = pos 3; actual_length = 10; packets = [] }

one_ended : Run failed (cancelled ∷ []) (deliver failed 1 2 cancelled (pos 0))
one_ended = next here (completes 1 2 (pos 0) refl refl)

Run-Drains_example : Drains failed (length (cancelled ∷ [])) (deliver failed 1 2 cancelled (pos 0))
Run-Drains_example = Run-Drains refl one_ended
