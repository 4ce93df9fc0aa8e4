-- ===== src/Transfer/PartialIo/Resumption.antt =====
-- When the coroutine that awaits `submit` of include/co_usb/transfer/partial_io.hpp goes on.
use co_usb.Prelude.{
  ℕ, zero, suc, ◌+◌, ◌%◌, ◌≤◌, ◌<◌, ◌≡◌, ◌≢◌, refl, ap, sym, subst, false, some, List, [], ◌∷◌,
  ◌==◌, length, length-take, length-drop, take, drop, if◌then◌else◌, arith,
}
use co_usb.Prelude.Int.{ℤ, ==ℤ_iff}
use co_usb.Prelude.Words.{size_mod}
use co_usb.Transfer.Record.{SameTypes, Buffer, Store}
use co_usb.Transfer.Status.{make_transfer_status}
use co_usb.Libusb
use co_usb.Transfer.Partial.{
  fill_transfers, Awaitable, make_awaitable, await_ready, await_suspend, await_resume,
}
use co_usb.Transfer.Partial.Run.{Sys, Completion, Run}
use co_usb.Transfer.Partial.Resumption.{IsLive, Run-Ran}
use co_usb.Transfer.Partial.Success.{NotIso, Run-Clear, bytes_of}
use co_usb.Errors.{is_error}
use co_usb.Transfer.Partial.Failure.{IsLost, Run-IsLost, idle-Run}
use co_usb.Transfer.PartialIo.{pending, submit, transfers_used}
use co_usb.Transfer.PartialIo.Start.{
  Accepts, fill_transfers_lem, submit_transfers_all, submit_transfers_stops,
}

module _ (this : ℕ) (view : List ℕ) (buffers : List Buffer) (m : Store) (h : ℕ) where
  abbrev pub used : ℕ
  used = transfers_used view buffers

  -- The awaitable once each transfer has a buffer.
  unfoldable pub filled : Awaitable
  unfolding make_awaitable
  filled = record (make_awaitable this view buffers used) {
    buf_current = drop used buffers;
    cont = h;
    in_flight = used;
  }

  abbrev pub started : Store → Sys
  started m' = record { self = filled; store = m'; flying = take used view }

  pub submit_pending :
      (results : ℕ → ℤ)
      → buffers ≢ []
      → Accepts results 0 used
      → (m' : Store) × (submit this view buffers m false h results ≡ pending (started m'))
        × (SameTypes m' m)
        × (fill_transfers used view (record (make_awaitable this view buffers used) { cont = h }) m
            ≡ some (
              record (make_awaitable this view buffers used) {
                buf_current = drop used buffers;
                cont = h;
              },
              m',
            ))
  unfolding submit filled make_awaitable await_ready await_suspend
  submit_pending results ne a =
      let (m', e, same) =
        fill_transfers_lem used view buffers
          (record (make_awaitable this view buffers used) { cont = h }) m (omega arith)
          (omega arith) in
      (m', ground (arith, e, submit_transfers_all used view 0 results filled a), same, e)

  started-IsLive :
      (m' : Store) → buffers ≢ [] → view ≢ [] → length view < size_mod → IsLive (started m')
  unfolding filled make_awaitable
  started-IsLive m' ne nv v = ground (arith, length-take used view)

  -- With buffers, and between 1 and 2^64 - 1 transfers, no stop requested, and libusb taking each of the
  -- first submissions, `submit` sleeps; in every run of callbacks after that no more transfers are in
  -- flight than there are buffers without a callback, and the coroutine has been posted once if no
  -- transfer is in flight and not at all otherwise.
  pub submit_resumes_once :
      (results : ℕ → ℤ)
      → buffers ≢ []
      → view ≢ []
      → length view < size_mod
      → Accepts results 0 used
      → (s : Sys) × (submit this view buffers m false h results ≡ pending s)
        × ((cs : List Completion) (u : Sys)
            → Run s cs u
            → (length u.flying + length cs ≤ length buffers)
              × (u.self.posted ≡ (if length u.flying == 0 then h ∷ [] else [])))
  unfolding filled
  submit_resumes_once results ne nv v a =
      let (m', e, _, _) = submit_pending results ne a in
      (
        started m',
        e,
        λ cs u run.
            let ran = Run-Ran (started-IsLive m' ne nv v) run in
            ground (arith, ran, ran.live, length-take used view, length-drop used buffers),
      )

  -- With buffers, and between 1 and 2^64 - 1 transfers, none of them isochronous, no stop requested,
  -- and libusb taking each of the first submissions, `submit` sleeps; and when a run of callbacks has
  -- left no transfer in flight and no error, every buffer was submitted, one callback came for each, and
  -- the result is the sum of the bytes that the completions reported, modulo 2^64.
  pub submit_success :
      (results : ℕ → ℤ)
      → buffers ≢ []
      → view ≢ []
      → length view < size_mod
      → Accepts results 0 used
      → NotIso m
      → (s : Sys) × (submit this view buffers m false h results ≡ pending s)
        × ((cs : List Completion) (u : Sys)
            → Run s cs u
            → u.flying ≡ []
            → is_error u.self.ec ≡ false
            → (length u.self.buf_current ≡ 0)
              × (length cs ≡ length buffers)
              × (await_resume u.self ≡ (u.self.ec, bytes_of cs % size_mod)))
  unfolding filled make_awaitable await_resume
  submit_success results ne nv v a notiso =
      let (m', e, same, _) = submit_pending results ne a in
      (
        started m',
        e,
        λ cs u run done clean.
            let clear = Run-Clear (omega arith) (λ t. rw (same t) (notiso t)) run clean in
            ground (arith, clear, ap length done, length-take used view, length-drop used buffers),
      )

  -- With fewer than 2^64 transfers and no stop requested, if libusb takes the submissions before some
  -- round and refuses that of the round, `submit` sleeps with an error of the wrong
  -- category, the number of libusb's error in that of the transfer states, and no callback ever
  -- posts the coroutine: it counts the transfers that were never submitted as in flight.
  pub submit_refused_hangs :
      (results : ℕ → ℤ) (k : ℕ)
      → length view < size_mod
      → k < used
      → Accepts results 0 k
      → results k ≢ Libusb.success
      → (s : Sys) × (submit this view buffers m false h results ≡ pending s)
        × (s.self.ec ≡ make_transfer_status (results k))
        × ((cs : List Completion) (u : Sys) → Run s cs u → u.self.posted ≡ [])
  unfolding submit filled make_awaitable await_ready await_suspend
  submit_refused_hangs results k v lt a f =
      let (m', e, same) =
        fill_transfers_lem used view buffers
          (record (make_awaitable this view buffers used) { cont = h }) m (omega arith)
          (omega arith) in
      let s : Sys = record {
        self = record filled { ec = make_transfer_status (results k) };
        store = m';
        flying = take k view;
      } in
      let lost : IsLost s = record {
        failed = ground (arith, ==ℤ_iff (results k) Libusb.success);
        missing = omega (arith, length-take k view);
        bounded = omega arith;
        silent = refl;
      } in
      let e0 : 0 + k ≡ k = omega arith in
      let stops =
        submit_transfers_stops k used view 0 results filled lt (omega arith) a
          (subst (λ j. results j ≢ Libusb.success) (sym e0) f) in
      (s, ground (arith, e, stops, ap results e0), refl, λ cs u run. (Run-IsLost lost run).silent)

take-nil : (n : ℕ) → take {A = ℕ} n [] ≡ []
take-nil zero = refl
take-nil (suc n) = refl

-- With buffers but no transfer, and no stop requested, `submit` sleeps; no callback can come then, and
-- the coroutine is never posted.
pub submit_no_transfer_hangs :
    (this : ℕ) (buffers : List Buffer) (m : Store) (h : ℕ) (results : ℕ → ℤ)
    → buffers ≢ []
    → (s : Sys) × (submit this [] buffers m false h results ≡ pending s)
      × ((cs : List Completion) (u : Sys) → Run s cs u → (cs ≡ []) × (u.self.posted ≡ []))
unfolding filled make_awaitable
submit_no_transfer_hangs this buffers m h results ne =
    let (m', e, _, _) =
      submit_pending this [] buffers m h results ne (λ j p q. absurd (omega arith)) in
    (
      started this [] buffers m h m',
      e,
      λ cs u run.
          let (c0, same) = idle-Run (take-nil (used this [] buffers m h)) run in
          (c0, ap (λ w. w.self.posted) same),
    )
