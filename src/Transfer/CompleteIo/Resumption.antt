-- ===== src/Transfer/CompleteIo/Resumption.antt =====
-- When the coroutine that awaits `complete_submit` of include/co_usb/transfer/complete_io.hpp goes
-- on, and what it is told.
use co_usb.Prelude.{
  ℕ, ◌%◌, ◌<◌, ◌≡◌, ◌≢◌, ap, true, false, some, List, [], ◌∷◌, ◌==◌, length, length-take, take,
  drop, get_elem?, is_some, if◌then◌else◌, arith,
}
use co_usb.Prelude.Int.{ℤ}
use co_usb.Prelude.Words.{size_mod}
use co_usb.Errors.{is_error}
use co_usb.Transfer.Record.{Buffer, Store, SameTypes}
use co_usb.Transfer.Partial.Run.{Completion}
use co_usb.Transfer.Partial.Success.{NotIso, bytes_of}
use co_usb.Transfer.PartialIo.{transfers_used}
use co_usb.Transfer.PartialIo.Start.{Accepts}
use co_usb.Transfer.Complete.{
  fill_transfers, Awaitable, Progresses, make_awaitable, await_ready, await_suspend, await_resume,
}
use co_usb.Transfer.Complete.Entries.{Tracked, totals}
use co_usb.Transfer.Complete.Run.{Sys, deliver, Run}
use co_usb.Transfer.Complete.Resumption.{IsLive, Run-Followed, deliver-total}
use co_usb.Transfer.Complete.Accounting.{Run-Clear, sum_totals_lem}
use co_usb.Transfer.CompleteIo.{pending, complete_submit}
use co_usb.Transfer.CompleteIo.Start.{fill_transfers_lem, submit_transfers_all}

module _ (this : ℕ) (view : List ℕ) (buffers : List Buffer) (limit : ℕ) (m : Store) (h : ℕ) where
  abbrev pub used : ℕ
  used = transfers_used view buffers

  -- The awaitable once each transfer has a buffer and its entry.
  unfoldable pub filled : Progresses → Awaitable
  unfolding make_awaitable
  filled states = record (make_awaitable this view buffers used limit) {
    buf_current = drop used buffers;
    states = states;
    cont = h;
    in_flight = used;
  }

  abbrev pub started : Store → Progresses → Sys
  started m' states = record { self = filled states; store = m'; flying = take used view }

  pub record Started (m' : Store) (states : Progresses) : Type 0 where
    pub loop :
        fill_transfers used view
          (record (make_awaitable this view buffers used limit) { cont = h })
          m
        ≡ some (
          record (make_awaitable this view buffers used limit) {
            buf_current = drop used buffers;
            states = states;
            cont = h;
          },
          m',
        )
    pub types : SameTypes m' m
    pub tracked : Tracked states (take used view)
    pub sum : totals states ≡ 0

  pub complete_submit_pending :
      (results : ℕ → ℤ)
      → buffers ≢ []
      → Accepts results 0 used
      → (m' : Store) × (states : Progresses) × (complete_submit this view buffers limit m false h
            results
          ≡ pending (started m' states))
        × Started m' states
  unfolding complete_submit filled make_awaitable await_ready await_suspend totals
  complete_submit_pending results ne a =
      let (m', states, e, same, tracked, sum, _) =
        fill_transfers_lem used view buffers
          (record (make_awaitable this view buffers used limit) { cont = h }) [] m (omega arith)
          (omega arith) in
      (
        m',
        states,
        ground (arith, e, submit_transfers_all used view 0 results (filled states) a),
        record { loop = e; types = same; tracked = tracked; sum = sum },
      )

  started-IsLive :
      (m' : Store) (states : Progresses)
      → Started m' states
      → buffers ≢ []
      → view ≢ []
      → length view < size_mod
      → IsLive (started m' states)
  unfolding filled make_awaitable
  started-IsLive m' states st ne nv v = record {
    counted = ground (arith, length-take used view);
    bounded = ground (arith, length-take used view);
    posted = ground (arith, length-take used view);
    tracked = st.tracked;
  }

  -- With buffers, and between 1 and 2^64 - 1 transfers, no stop requested, and libusb taking each of the
  -- first submissions, `complete_submit` sleeps; in every run of callbacks after that the coroutine has
  -- been posted once if no transfer is in flight and not at all otherwise, and the next callback of any
  -- transfer in flight does not throw.
  pub complete_submit_resumes_once :
      (results : ℕ → ℤ)
      → buffers ≢ []
      → view ≢ []
      → length view < size_mod
      → Accepts results 0 used
      → (s : Sys) × (complete_submit this view buffers limit m false h results ≡ pending s)
        × ((cs : List Completion) (u : Sys)
            → Run s cs u
            → (u.self.posted ≡ (if length u.flying == 0 then h ∷ [] else []))
              × ((i t : ℕ) (c : Completion) (r : ℤ)
                  → get_elem? u.flying i ≡ some t
                  → is_some (deliver u i t c r) ≡ true))
  unfolding filled
  complete_submit_resumes_once results ne nv v a =
      let (m', states, e, st) = complete_submit_pending results ne a in
      (
        started m' states,
        e,
        λ cs u run.
            let ran = Run-Followed (started-IsLive m' states st ne nv v) run in
            (ground (arith, ran, ran.live), λ i t c r at_i. deliver-total u i t c r ran.live at_i),
      )

  -- With buffers and transfers, none of them isochronous, no stop requested, and libusb taking each of
  -- the first submissions, `complete_submit` sleeps; and when a run of callbacks has left no transfer in
  -- flight and no error, every buffer was taken, and the result is the sum of the bytes that the
  -- completions reported, modulo 2^64.
  pub complete_submit_success :
      (results : ℕ → ℤ)
      → buffers ≢ []
      → view ≢ []
      → Accepts results 0 used
      → NotIso m
      → (s : Sys) × (complete_submit this view buffers limit m false h results ≡ pending s)
        × ((cs : List Completion) (u : Sys)
            → Run s cs u
            → u.flying ≡ []
            → is_error u.self.ec ≡ false
            → (length u.self.buf_current ≡ 0)
              × (await_resume u.self ≡ (u.self.ec, bytes_of cs % size_mod)))
  unfolding filled make_awaitable await_resume
  complete_submit_success results ne nv a notiso =
      let (m', states, e, st) = complete_submit_pending results ne a in
      (
        started m' states,
        e,
        λ cs u run done clean.
            let clear = Run-Clear (λ t. rw (st.types t) (notiso t)) run clean in
            ground (
              arith,
              clear,
              ap length done,
              st.sum,
              length-take used view,
              sum_totals_lem u.self.states 0,
            ),
      )
