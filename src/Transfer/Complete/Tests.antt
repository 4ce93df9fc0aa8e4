-- ===== src/Transfer/Complete/Tests.antt =====
-- A transfer of include/co_usb/transfer/detail/complete_sequence_awaitable.hpp that fills its first
-- buffer of 64 bytes, and of whose second buffer nothing arrives; and a failed operation.
use co_usb.Prelude.{◌+◌, ◌≡◌, refl, true, some, [], ◌∷◌, length, arith}
use co_usb.Prelude.Int.{pos}
use co_usb.Prelude.Words.{size_of_int, dec_size}
use co_usb.Libusb
use co_usb.Errors.{no_error, make_usb_error_code}
use co_usb.Transfer.Record.{Transfer, TransferType, Callback, Buffer, Store, update}
use co_usb.Transfer.Partial.Run.{Completion, finish}
use co_usb.Transfer.Complete.{Awaitable, Progress, at, transfer_callback, resume_on_zero}
use co_usb.Transfer.Complete.Run.{Sys, deliver, completes, Run, here, next}
use co_usb.Transfer.Complete.Failure.{Drains, Run-await_resume}
use co_usb.Transfer.Complete.Stale.{Arrived, Moved, stale_total_skips}

abbrev ended : Transfer
ended = record {
  dev_handle = 1;
  endpoint = 0x81;
  type = TransferType.bulk;
  timeout = 0;
  status = pos 0;
  length = 64;
  actual_length = 64;
  callback = Callback.complete_callback;
  user_data = 7;
  buffer = 4096;
  packets = [];
  stream_id = 0;
}

abbrev second : Buffer
second = record { data_ptr = 8192; size = 64 }

abbrev third : Buffer
third = record { data_ptr = 12288; size = 64 }

abbrev started : Progress
started = record { ptr = 4096; expected = 64; total = 0 }

abbrev running : Awaitable
running = record {
  this = 7;
  view = 1 ∷ [];
  buf_current = second ∷ third ∷ [];
  submission_size = 1;
  single_transfer_limit = 64;
  states = (1, started) ∷ [];
  cont = 9;
  ec = no_error;
  in_flight = 1;
  posted = [];
}

all_came : Arrived ended 64
unfolding size_of_int
all_came = record { kind = refl; good = refl; bytes = refl }

entry : at running.states 1 ≡ some started
unfolding at
entry = refl

stale_total_skips_example :
    (out : Awaitable) × (m' : Store) × (transfer_callback running (λ _. ended) 1 Libusb.success
      ≡ some (out, m', true))
    × Moved running 1 second (third ∷ []) (0 + 64) out m'
    × ((m₂ : Store)
        → Arrived (m₂ 1) 0
        → (out' : Awaitable) × (m₂' : Store) × (transfer_callback out m₂ 1 Libusb.success
            ≡ some (out', m₂', true))
          × Moved out 1 third [] (0 + 64 + 0) out' m₂')
stale_total_skips_example =
    stale_total_skips running (λ _. ended) 1 64 started second third [] refl entry all_came
      (omega arith) (omega arith) refl 0 (omega arith)

-- Two transfers in flight under an error, of which one ends.
abbrev failed : Sys
failed = record {
  self = record running { ec = make_usb_error_code (pos 5); in_flight = 2 };
  store = λ _. ended;
  flying = 1 ∷ 2 ∷ [];
}

abbrev cancelled : Completion
cancelled = record { status = pos 3; actual_length = 10; packets = [] }

abbrev drained : Sys
drained = record {
  self = record failed.self { in_flight = 1 };
  store = update failed.store 2 (finish cancelled ended);
  flying = 1 ∷ [];
}

one_ended : Run failed (cancelled ∷ []) drained
unfolding deliver transfer_callback resume_on_zero dec_size
one_ended = next here (completes 1 2 (pos 0) refl refl)

Run-await_resume_example : Drains failed (length (cancelled ∷ [])) drained
Run-await_resume_example = Run-await_resume refl one_ended
