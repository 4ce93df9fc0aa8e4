-- ===== src/Transfer/Complete/Counting.antt =====
-- How one callback of include/co_usb/transfer/detail/complete_sequence_awaitable.hpp changes the
-- counters.
use co_usb.Prelude.{
  ℕ, ◌≡◌, Bool, true, some, List, ◌∷◌, ◌==◌, is_some, Option-cases, inl, inr, if◌then◌else◌, arith,
}
use co_usb.Prelude.Int.{ℤ}
use co_usb.Prelude.Words.{add_size, inc_size, dec_size}
use co_usb.Transfer.Record.{Store}
use co_usb.Transfer.Complete.{
  Awaitable, Progress, at, put, resume_on_zero, submit_again, next_buffer, same_buffer, go_on,
  count_and_go, transfer_callback, subtotal_of,
}
use co_usb.Transfer.Complete.Entries.{Tracked, put-Tracked}

-- What the callback returned, against the awaitable with one transfer fewer in flight: libusb took
-- the transfer again, or it did not, and then the last one posts.
pub record Returned (landed self : Awaitable) (accepted : Bool) : Type 0 where
  pub cont : self.cont ≡ landed.cont
  pub in_flight :
      self.in_flight ≡ (if accepted then inc_size landed.in_flight else landed.in_flight)
  pub posted : self.posted ≡ (
      if accepted
      then landed.posted
      else if landed.in_flight == 0
      then landed.cont ∷ landed.posted
      else landed.posted)

go_on-Returned :
    (self : Awaitable) (m : Store) (t : ℕ) (prg : Progress) (b : ℕ) (r : ℤ)
    → Returned self (go_on self m t prg b r).0 (go_on self m t prg b r).2
unfolding go_on next_buffer same_buffer submit_again resume_on_zero
go_on-Returned self m t prg b r = ground arith

count_and_go-Returned :
    (self : Awaitable) (m : Store) (t : ℕ) (prg : Progress) (r : ℤ)
    → Returned self (count_and_go self m t prg r).0 (count_and_go self m t prg r).2
unfolding count_and_go resume_on_zero
count_and_go-Returned self m t prg r =
    let counted : Progress = record prg { total = add_size prg.total (subtotal_of (m t)) } in
    ground (
      arith,
      go_on-Returned (record self { states = put self.states t counted }) m t counted
          (subtotal_of (m t)) r,
    )

next_buffer-Tracked :
    (self : Awaitable) (m : Store) (t : ℕ) (prg : Progress) (r : ℤ) (ts : List ℕ)
    → Tracked self.states ts
    → Tracked (next_buffer self m t prg r).0.states ts
unfolding next_buffer submit_again resume_on_zero
next_buffer-Tracked self m t prg r ts h = grind (arith, put-Tracked)

go_on-Tracked :
    (self : Awaitable) (m : Store) (t : ℕ) (prg : Progress) (b : ℕ) (r : ℤ) (ts : List ℕ)
    → Tracked self.states ts
    → Tracked (go_on self m t prg b r).0.states ts
unfolding go_on same_buffer submit_again resume_on_zero
go_on-Tracked self m t prg b r ts h =
    let on : Progress = record prg { ptr = add_size prg.ptr b } in
    ground (arith, next_buffer-Tracked self m t prg r ts, put-Tracked self.states t on ts h)

count_and_go-Tracked :
    (self : Awaitable) (m : Store) (t : ℕ) (prg : Progress) (r : ℤ) (ts : List ℕ)
    → Tracked self.states ts
    → Tracked (count_and_go self m t prg r).0.states ts
unfolding count_and_go resume_on_zero
count_and_go-Tracked self m t prg r ts h =
    let counted : Progress = record prg { total = add_size prg.total (subtotal_of (m t)) } in
    let kept = put-Tracked self.states t counted ts h in
    ground (
      arith,
      kept,
      go_on-Tracked (record self { states = put self.states t counted }) m t counted
          (subtotal_of (m t)) r ts kept,
    )

-- The awaitable as the callback finds it, with its counter lowered.
abbrev pub land : Awaitable → Awaitable
land self = record self { in_flight = dec_size self.in_flight }

pub transfer_callback-Returned :
    (self : Awaitable) (m : Store) (t : ℕ) (r : ℤ) (out : Awaitable) (m' : Store) (accepted : Bool)
    → transfer_callback self m t r ≡ some (out, m', accepted)
    → Returned (land self) out accepted
unfolding transfer_callback resume_on_zero
transfer_callback-Returned self m t r out m' accepted e = elim (Option-cases (at self.states t)) [
  | inl none_at ↦ ground arith
  | inr (prg, found) ↦ ground (arith, count_and_go-Returned (land self) m t prg r)
]

pub transfer_callback-Tracked :
    (self : Awaitable) (m : Store) (t : ℕ) (r : ℤ) (out : Awaitable) (m' : Store) (accepted : Bool)
    (ts : List ℕ)
    → transfer_callback self m t r ≡ some (out, m', accepted)
    → Tracked self.states ts
    → Tracked out.states ts
unfolding transfer_callback resume_on_zero
transfer_callback-Tracked self m t r out m' accepted ts e h =
    elim (Option-cases (at self.states t)) [
      | inl none_at ↦ ground arith
      | inr (prg, found) ↦ ground (arith, count_and_go-Tracked (land self) m t prg r ts h)
    ]

-- The callback of a transfer that has an entry throws no exception.
pub transfer_callback-total :
    (self : Awaitable) (m : Store) (t : ℕ) (r : ℤ)
    → is_some (at self.states t) ≡ true
    → is_some (transfer_callback self m t r) ≡ true
unfolding transfer_callback
transfer_callback-total self m t r h = ground arith
