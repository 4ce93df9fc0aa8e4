-- ===== src/Transfer/Partial.antt =====
-- include/co_usb/transfer/detail/sequence_awaitable.hpp. The transfers of the view are addresses
-- into a store, and `buf_current` is the list of buffers from the iterator to `buf_end`. Callbacks
-- run one at a time, on the thread of the event handler. What `libusb_submit_transfer` returns is an
-- argument; what the executor is given by `post` is kept in `posted`, newest first.
pub mod Run
pub mod Launch
pub mod Counting
pub mod Resumption
pub mod Success
pub mod Failure
pub mod Refine
mod Tests
use co_usb.Prelude.{
  ℕ, zero, suc, ◌+◌, Bool, true, false, not, Option, none, some, List, [], ◌∷◌, ◌==◌, length,
  is_empty, if◌then◌else◌,
}
use co_usb.Prelude.Int.{ℤ, ◌==ℤ◌}
use co_usb.Prelude.Words.{add_size, inc_size, dec_size, int_of_size, size_of_int}
use co_usb.Libusb
use co_usb.Errors.{ErrorCode, no_error, is_error, make_usb_error_code}
use co_usb.Transfer.Status.{Status, status_value, make_transfer_status}
use co_usb.Transfer.Record.{
  Transfer, Packet, Buffer, Store, sequence_callback, is_isochronous, update,
}

-- The awaitable with its `await_state`. The mutex is left out.
pub record Awaitable : Type 0 where
  pub this : ℕ
  pub view : List ℕ
  pub buf_current : List Buffer
  pub submission_size : ℕ
  pub cont : ℕ
  pub ec : ErrorCode
  pub total : ℕ
  pub in_flight : ℕ
  pub posted : List ℕ

unfoldable pub make_awaitable : ℕ → List ℕ → List Buffer → ℕ → Awaitable
make_awaitable this view buffers size = record {
  this = this;
  view = view;
  buf_current = buffers;
  submission_size = size;
  cont = 0;
  ec = no_error;
  total = 0;
  in_flight = 0;
  posted = [];
}

unfoldable pub resume_on_zero : Awaitable → Awaitable
resume_on_zero self =
    if self.in_flight == 0 then record self { posted = self.cont ∷ self.posted } else self

-- The loop over the packets, and whether it returned from the callback.
unfoldable pub count_packets : Transfer → List Packet → Awaitable → Awaitable × Bool
unfolding resume_on_zero
count_packets tfer [] self = (self, false)
count_packets tfer (p ∷ ps) self =
    let counted : Awaitable = record self { total = add_size self.total p.actual_length } in
    let rest = count_packets tfer ps counted in
    if not (tfer.status ==ℤ status_value Status.completed)
    then (resume_on_zero (record counted { ec = make_transfer_status p.status }), true)
    else rest

unfoldable pub count_transfer : Transfer → Awaitable → Awaitable × Bool
unfolding count_packets
count_transfer tfer self =
    if is_isochronous tfer.type
    then count_packets tfer tfer.packets self
    else (record self { total = add_size self.total (size_of_int tfer.actual_length) }, false)

-- The end of the callback, from the call of `libusb_submit_transfer`, which returns `r`. The
-- `Bool` of a result tells whether libusb took the transfer again.
unfoldable pub submit_again : Awaitable → Store → ℤ → Awaitable × Store × Bool
unfolding resume_on_zero
submit_again self m r =
    if not (r ==ℤ Libusb.success)
    then (resume_on_zero (record self { ec = make_usb_error_code r }), m, false)
    else (record self { in_flight = inc_size self.in_flight }, m, true)

-- The part from the test of `buf_current` on.
unfoldable pub next_buffer : Awaitable → Store → ℕ → ℤ → Awaitable × Store × Bool
unfolding resume_on_zero submit_again
next_buffer self m t r = elim self.buf_current [
  | [] ↦ (resume_on_zero self, m, false)
  | buf ∷ rest ↦
      submit_again (record self { buf_current = rest })
        (update m t (record (m t) { buffer = buf.data_ptr; length = int_of_size buf.size })) r
]

-- The part from the last test of `tfer->status` on.
unfoldable pub check_status : Awaitable → Store → ℕ → ℤ → Awaitable × Store × Bool
unfolding resume_on_zero next_buffer
check_status self m t r =
    if not ((m t).status ==ℤ status_value Status.completed)
    then (resume_on_zero (record self { ec = make_transfer_status (m t).status }), m, false)
    else next_buffer self m t r

-- The part from the loop over the packets on.
unfoldable pub count_and_go : Awaitable → Store → ℕ → ℤ → Awaitable × Store × Bool
unfolding count_transfer check_status
count_and_go self m t r =
    let (counted, returned) = count_transfer (m t) self in
    if returned then (counted, m, false) else check_status counted m t r

unfoldable pub transfer_callback : Awaitable → Store → ℕ → ℤ → Awaitable × Store × Bool
unfolding resume_on_zero count_and_go
transfer_callback self m t r =
    let landed : Awaitable = record self { in_flight = dec_size self.in_flight } in
    if is_error landed.ec then (resume_on_zero landed, m, false) else count_and_go landed m t r

unfoldable pub await_ready : Awaitable → Bool
await_ready self = is_empty self.buf_current

-- The first loop of `await_suspend`. `none` is a dereference past the end.
unfoldable pub fill_transfers : ℕ → List ℕ → Awaitable → Store → Option (Awaitable × Store)
fill_transfers zero ts self m = some (self, m)
fill_transfers (suc n) [] self m = none
fill_transfers (suc n) (t ∷ ts) self m = elim self.buf_current [
  | [] ↦ none
  | buf ∷ rest ↦
      fill_transfers n ts (record self { buf_current = rest })
        (update m t (record (m t) {
          buffer = buf.data_ptr;
          length = int_of_size buf.size;
          user_data = self.this;
          callback = sequence_callback;
        }))
]

-- The second loop, from its round `i` on, with `results i` what libusb returns in round `i`, and the
-- transfers that libusb took.
unfoldable pub submit_transfers : ℕ → List ℕ → ℕ → (ℕ → ℤ) → Awaitable → Awaitable × List ℕ
submit_transfers zero ts i results self = (self, [])
submit_transfers (suc n) [] i results self = (self, [])
submit_transfers (suc n) (t ∷ ts) i results self =
    let rest = submit_transfers n ts (i + 1) results self in
    if not (results i ==ℤ Libusb.success)
    then (record self { ec = make_transfer_status (results i) }, [])
    else (rest.0, t ∷ rest.1)

-- What the coroutine does after `await_suspend`: it goes on at once (the handle is returned), or it
-- sleeps until a callback posts it, with the transfers that libusb took. Callbacks that the event thread
-- makes while the loop has transfers still to submit are in Launch.
pub data Suspended : Type 0 where
  resumed : Awaitable → Suspended
  sleeping : Awaitable → Store → List ℕ → Suspended

unfoldable pub await_suspend : Awaitable → Store → Bool → ℕ → (ℕ → ℤ) → Option Suspended
unfolding fill_transfers submit_transfers
await_suspend self m stop_requested h results =
    if stop_requested
    then some (resumed (record self { ec = make_transfer_status (status_value Status.cancelled) }))
    else elim (fill_transfers self.submission_size self.view (record self { cont = h }) m) [
      | none ↦ none
      | some (filled, m') ↦
          let started =
            submit_transfers self.submission_size self.view 0 results
              (record filled { in_flight = self.submission_size }) in
          some (sleeping started.0 m' started.1)
    ]

unfoldable pub await_resume : Awaitable → ErrorCode × ℕ
await_resume self = (self.ec, self.total)
