-- ===== src/Transfer/Partial/Counting.antt =====
-- How one callback of include/co_usb/transfer/detail/sequence_awaitable.hpp changes the counters.
use co_usb.Prelude.{
  ℕ, ◌+◌, ◌≤◌, ◌≡◌, Bool, false, ◌&&◌, List, [], ◌∷◌, ◌==◌, length, if◌then◌else◌, arith,
}
use co_usb.Prelude.Int.{ℤ}
use co_usb.Prelude.Words.{add_size, inc_size, dec_size}
use co_usb.Transfer.Record.{Transfer, Packet, Store}
use co_usb.Transfer.Partial.{
  Awaitable, resume_on_zero, count_packets, count_transfer, submit_again, next_buffer, check_status,
  count_and_go, transfer_callback,
}

-- What the callback returned, against the awaitable with one transfer fewer in flight: libusb took
-- the transfer again with the next buffer, or it did not, and then the last one posts.
pub record Returned (landed self : Awaitable) (accepted : Bool) : Type 0 where
  pub cont : self.cont ≡ landed.cont
  pub in_flight :
      self.in_flight ≡ (if accepted then inc_size landed.in_flight else landed.in_flight)
  pub posted : self.posted ≡ (
      if accepted
      then landed.posted
      else if landed.in_flight == 0
      then landed.cont ∷ landed.posted
      else landed.posted)
  pub buffers : length self.buf_current + (if accepted then 1 else 0) ≤ length landed.buf_current

resume_on_zero-Returned : (self : Awaitable) → Returned self (resume_on_zero self) false
unfolding resume_on_zero
resume_on_zero-Returned self = ground arith

-- What counting the bytes leaves alone; a return from the callback there posts as at its end.
record Counted (self counted : Awaitable) (returned : Bool) : Type 0 where
  cont : counted.cont ≡ self.cont
  in_flight : counted.in_flight ≡ self.in_flight
  buffers : counted.buf_current ≡ self.buf_current
  posted :
      counted.posted
      ≡ (if returned && self.in_flight == 0 then self.cont ∷ self.posted else self.posted)

count_packets-Counted :
    (tfer : Transfer) (ps : List Packet) (self : Awaitable)
    → Counted self (count_packets tfer ps self).0 (count_packets tfer ps self).1
unfolding count_packets resume_on_zero
count_packets-Counted tfer [] self = ground arith
count_packets-Counted tfer (p ∷ ps) self =
    let counted : Awaitable = record self { total = add_size self.total p.actual_length } in
    ground (arith, count_packets-Counted tfer ps counted)

count_transfer-Counted :
    (tfer : Transfer) (self : Awaitable)
    → Counted self (count_transfer tfer self).0 (count_transfer tfer self).1
unfolding count_transfer
count_transfer-Counted tfer self = ground (arith, count_packets-Counted tfer tfer.packets self)

next_buffer-Returned :
    (self : Awaitable) (m : Store) (t : ℕ) (r : ℤ)
    → Returned self (next_buffer self m t r).0 (next_buffer self m t r).2
unfolding next_buffer submit_again resume_on_zero
next_buffer-Returned self m t r = ground arith

check_status-Returned :
    (self : Awaitable) (m : Store) (t : ℕ) (r : ℤ)
    → Returned self (check_status self m t r).0 (check_status self m t r).2
unfolding check_status resume_on_zero
check_status-Returned self m t r = ground (arith, next_buffer-Returned self m t r)

count_and_go-Returned :
    (self : Awaitable) (m : Store) (t : ℕ) (r : ℤ)
    → Returned self (count_and_go self m t r).0 (count_and_go self m t r).2
unfolding count_and_go
count_and_go-Returned self m t r = ground (
  arith,
  count_transfer-Counted (m t) self,
  check_status-Returned (count_transfer (m t) self).0 m t r,
)

-- The callback as a whole, against the awaitable with its counter lowered.
pub transfer_callback-Returned :
    (self : Awaitable) (m : Store) (t : ℕ) (r : ℤ)
    → Returned
        (record self { in_flight = dec_size self.in_flight })
        (transfer_callback self m t r).0
        (transfer_callback self m t r).2
unfolding transfer_callback resume_on_zero
transfer_callback-Returned self m t r =
    ground
      (arith, count_and_go-Returned (record self { in_flight = dec_size self.in_flight }) m t r)
