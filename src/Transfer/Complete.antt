-- ===== src/Transfer/Complete.antt =====
-- include/co_usb/transfer/detail/complete_sequence_awaitable.hpp, with the conventions of
-- sequence_awaitable.hpp: transfers are addresses into a store, callbacks run one at a time, what
-- libusb returns is an argument, and what the executor is given is kept in `posted`. The
-- `unordered_map` of progress is an association list.
pub mod Run
pub mod Entries
pub mod Counting
pub mod Resumption
pub mod Accounting
pub mod Stale
pub mod Failure
pub mod Placement
pub mod Frame
pub mod Safety
pub mod Ending
pub mod Refine
pub mod Launch
mod Tests
use co_usb.Prelude.{
  ℕ, zero, suc, ◌+◌, ◌-◌, min, Bool, true, false, not, Option, none, some, List, [], ◌∷◌, ◌==◌, leb,
  is_empty, if◌then◌else◌,
}
use co_usb.Prelude.Int.{ℤ, ◌==ℤ◌}
use co_usb.Prelude.Words.{add_size, inc_size, dec_size, int_of_size, size_of_int}
use co_usb.Libusb
use co_usb.Errors.{ErrorCode, no_error, is_error, make_usb_error_code}
use co_usb.Transfer.Status.{Status, status_value, make_transfer_status}
use co_usb.Transfer.Record.{
  Transfer, Packet, Buffer, Store, complete_callback, is_isochronous, update,
}

pub record Progress : Type 0 where
  pub ptr : ℕ
  pub expected : ℕ
  pub total : ℕ

abbrev pub Progresses : Type 0
Progresses = List (ℕ × Progress)

-- `states.at(t)`, where `none` is the exception `std::out_of_range`.
unfoldable pub at : Progresses → ℕ → Option Progress
at [] t = none
at ((p, prg) ∷ states) t = if p == t then some prg else at states t

-- A write through the reference to the entry of `t`; `states[t]` adds the entry.
unfoldable pub put : Progresses → ℕ → Progress → Progresses
put [] t prg = (t, prg) ∷ []
put ((p, old) ∷ states) t prg = if p == t then (p, prg) ∷ states else (p, old) ∷ put states t prg

abbrev pub get_or : Option Progress → Progress → Progress
get_or none d = d
get_or (some prg) d = prg

abbrev pub new_progress : Progress
new_progress = record { ptr = 0; expected = 0; total = 0 }

-- The awaitable with its `await_state`. The mutex and the unused `err_idx` are left out.
pub record Awaitable : Type 0 where
  pub this : ℕ
  pub view : List ℕ
  pub buf_current : List Buffer
  pub submission_size : ℕ
  pub single_transfer_limit : ℕ
  pub states : Progresses
  pub cont : ℕ
  pub ec : ErrorCode
  pub in_flight : ℕ
  pub posted : List ℕ

unfoldable pub make_awaitable : ℕ → List ℕ → List Buffer → ℕ → ℕ → Awaitable
make_awaitable this view buffers size limit = record {
  this = this;
  view = view;
  buf_current = buffers;
  submission_size = size;
  single_transfer_limit = limit;
  states = [];
  cont = 0;
  ec = no_error;
  in_flight = 0;
  posted = [];
}

unfoldable pub resume_on_zero : Awaitable → Awaitable
resume_on_zero self =
    if self.in_flight == 0 then record self { posted = self.cont ∷ self.posted } else self

-- `subtotal`, over the packets or from the transfer.
unfoldable pub packet_bytes : List Packet → ℕ → ℕ
packet_bytes [] subtotal = subtotal
packet_bytes (p ∷ ps) subtotal = packet_bytes ps (add_size subtotal p.actual_length)

unfoldable pub subtotal_of : Transfer → ℕ
unfolding packet_bytes
subtotal_of tfer =
    if is_isochronous tfer.type then packet_bytes tfer.packets 0 else size_of_int tfer.actual_length

-- The error of the second loop over the packets, which the first packet ends if any does.
unfoldable pub packet_error : Transfer → List Packet → Option ErrorCode
packet_error tfer [] = none
packet_error tfer (p ∷ ps) =
    let rest = packet_error tfer ps in
    if not (tfer.status ==ℤ status_value Status.completed)
    then some (make_transfer_status p.status)
    else rest

-- The error that the callback finds in the transfer.
unfoldable pub transfer_error : Transfer → Option ErrorCode
unfolding packet_error
transfer_error tfer =
    let by_status =
      if not (tfer.status ==ℤ status_value Status.completed)
      then some (make_transfer_status tfer.status)
      else none in
    if is_isochronous tfer.type
    then elim (packet_error tfer tfer.packets) [ none ↦ by_status | some e ↦ some e ]
    else by_status

-- From the call of `libusb_submit_transfer` on.
unfoldable pub submit_again : Awaitable → Store → ℤ → Awaitable × Store × Bool
unfolding resume_on_zero
submit_again self m r =
    if not (r ==ℤ Libusb.success)
    then (resume_on_zero (record self { ec = make_usb_error_code r }), m, false)
    else (record self { in_flight = inc_size self.in_flight }, m, true)

-- The branch where the buffer counts as full.
unfoldable pub next_buffer : Awaitable → Store → ℕ → Progress → ℤ → Awaitable × Store × Bool
unfolding resume_on_zero submit_again
next_buffer self m t prg r = elim self.buf_current [
  | [] ↦ (resume_on_zero self, m, false)
  | buf ∷ rest ↦
      submit_again
        (record self {
          buf_current = rest;
          states = put self.states t (record prg { ptr = buf.data_ptr; expected = buf.size });
        })
        (update m t (record (m t) {
          buffer = buf.data_ptr;
          length = int_of_size (min buf.size self.single_transfer_limit);
        }))
        r
]

-- The branch where the buffer is not full: the transfer goes on behind the bytes that came.
unfoldable pub same_buffer : Awaitable → Store → ℕ → Progress → ℕ → ℤ → Awaitable × Store × Bool
unfolding submit_again
same_buffer self m t prg subtotal r =
    submit_again
      (record self { states = put self.states t (record prg { ptr = add_size prg.ptr subtotal }) })
      (update m t (record (m t) {
        buffer = add_size prg.ptr subtotal;
        length = int_of_size (min (prg.expected - prg.total) self.single_transfer_limit);
      }))
      r

-- From the comparison with `prg.expected` on. The subtraction there does not wrap: it is made where
-- `prg.total` is smaller.
unfoldable pub go_on : Awaitable → Store → ℕ → Progress → ℕ → ℤ → Awaitable × Store × Bool
unfolding next_buffer same_buffer
go_on self m t prg subtotal r =
    if leb prg.expected prg.total
    then next_buffer self m t prg r
    else same_buffer self m t prg subtotal r

-- From the look-up of the progress on, with `prg` the entry.
unfoldable pub count_and_go : Awaitable → Store → ℕ → Progress → ℤ → Awaitable × Store × Bool
unfolding resume_on_zero go_on subtotal_of transfer_error
count_and_go self m t prg r =
    let subtotal = subtotal_of (m t) in
    let counted : Progress = record prg { total = add_size prg.total subtotal } in
    let self' : Awaitable = record self { states = put self.states t counted } in
    elim (transfer_error (m t)) [
      | some e ↦ (resume_on_zero (record self' { ec = e }), m, false)
      | none ↦ go_on self' m t counted subtotal r
    ]

-- `none` is the exception of `at`.
unfoldable pub transfer_callback : Awaitable → Store → ℕ → ℤ → Option (Awaitable × Store × Bool)
unfolding resume_on_zero count_and_go at
transfer_callback self m t r =
    let landed : Awaitable = record self { in_flight = dec_size self.in_flight } in
    if is_error landed.ec
    then some (resume_on_zero landed, m, false)
    else elim (at landed.states t) [ none ↦ none | some prg ↦ some (count_and_go landed m t prg r) ]

unfoldable pub await_ready : Awaitable → Bool
await_ready self = is_empty self.buf_current

-- The first loop of `await_suspend`. `none` is a dereference past the end.
unfoldable pub fill_transfers : ℕ → List ℕ → Awaitable → Store → Option (Awaitable × Store)
unfolding at put
fill_transfers zero ts self m = some (self, m)
fill_transfers (suc n) [] self m = none
fill_transfers (suc n) (t ∷ ts) self m = elim self.buf_current [
  | [] ↦ none
  | buf ∷ rest ↦
      fill_transfers n ts
        (record self {
          buf_current = rest;
          states = put self.states t (record (get_or (at self.states t) new_progress) {
            ptr = buf.data_ptr;
            expected = buf.size;
          });
        })
        (update m t (record (m t) {
          buffer = buf.data_ptr;
          length = int_of_size (min buf.size self.single_transfer_limit);
          user_data = self.this;
          callback = complete_callback;
        }))
]

-- The second loop, from its round `i` on, with `results i` what libusb returns in round `i`, and the
-- transfers that libusb took.
unfoldable pub submit_transfers : ℕ → List ℕ → ℕ → (ℕ → ℤ) → Awaitable → Awaitable × List ℕ
submit_transfers zero ts i results self = (self, [])
submit_transfers (suc n) [] i results self = (self, [])
submit_transfers (suc n) (t ∷ ts) i results self =
    let rest = submit_transfers n ts (i + 1) results self in
    if not (results i ==ℤ Libusb.success)
    then (record self { ec = make_transfer_status (results i) }, [])
    else (rest.0, t ∷ rest.1)

-- Callbacks between the submissions of the loop are in Launch.
pub data Suspended : Type 0 where
  resumed : Awaitable → Suspended
  sleeping : Awaitable → Store → List ℕ → Suspended

unfoldable pub await_suspend : Awaitable → Store → Bool → ℕ → (ℕ → ℤ) → Option Suspended
unfolding fill_transfers submit_transfers
await_suspend self m stop_requested h results =
    if stop_requested
    then some (resumed (record self { ec = make_transfer_status (status_value Status.cancelled) }))
    else elim (fill_transfers self.submission_size self.view (record self { cont = h }) m) [
      | none ↦ none
      | some (filled, m') ↦
          let started =
            submit_transfers self.submission_size self.view 0 results
              (record filled { in_flight = self.submission_size }) in
          some (sleeping started.0 m' started.1)
    ]

unfoldable pub sum_totals : Progresses → ℕ → ℕ
sum_totals [] total = total
sum_totals ((p, prg) ∷ states) total = sum_totals states (add_size total prg.total)

unfoldable pub await_resume : Awaitable → ErrorCode × ℕ
unfolding sum_totals
await_resume self = (self.ec, sum_totals self.states 0)
