-- ===== src/Transfer/PartialIo/Order.antt =====
-- `submit` of include/co_usb/transfer/partial_io.hpp gives the buffers to libusb in their order.
use co_usb.Prelude.{
  ℕ, zero, suc, ◌≡◌, ◌≢◌, refl, sym, ap, ◌∙◌, false, some, List, [], ◌∷◌, ◌++◌, ==_iff, take, All,
  take-append-drop, Distinct, Distinct-take, arith,
}
use co_usb.Prelude.Int.{ℤ}
use co_usb.Errors.{is_error}
use co_usb.Transfer.Record.{Buffer, Store}
use co_usb.Transfer.Partial.{Awaitable, make_awaitable, fill_transfers}
use co_usb.Transfer.Partial.Run.{Sys, Completion, Run}
use co_usb.Transfer.Partial.Launch.{Launch, before_loop, Alike, Launch-Run}
use co_usb.Transfer.Partial.Success.{NotIso}
use co_usb.Transfer.Pipe.{Region, PipeRun, PipeRun-order}
use co_usb.Transfer.Pipe.Stage.{waiting_regions, active_regions, waiting_regions-drop, start_pipe}
use co_usb.Transfer.Partial.Refine.{view_pipe, Run-PipeRun}
use co_usb.Transfer.PartialIo.{submit, pending, transfers_used}
use co_usb.Transfer.PartialIo.Start.{Accepts}
use co_usb.Transfer.PartialIo.Resumption.{filled, started, submit_pending}

fill_transfers-other :
    (n : ℕ) (ts : List ℕ) (bs : List Buffer) (self out : Awaitable) (m m' : Store) (p : ℕ)
    → All (λ t. t ≢ p) ts
    → fill_transfers n ts (record self { buf_current = bs }) m ≡ some (out, m')
    → m' p ≡ m p
unfolding fill_transfers
fill_transfers-other zero ts bs self out m m' p h e = ground (arith, e)
fill_transfers-other (suc n) [] bs self out m m' p h e = absurd (cc)
fill_transfers-other (suc n) (t ∷ ts) [] self out m m' p h e = absurd (cc)
fill_transfers-other (suc n) (t ∷ ts) (b ∷ bs) self out m m' p h e =
    fill_transfers-other n ts bs self out _ m' p h.1 e ∙ ground (arith, h.0, ==_iff t p)

-- The first loop makes the first buffers the regions of the transfers.
fill_transfers-regions :
    (n : ℕ) (ts : List ℕ) (bs : List Buffer) (self out : Awaitable) (m m' : Store)
    → Distinct ts
    → fill_transfers n ts (record self { buf_current = bs }) m ≡ some (out, m')
    → active_regions m' (take n ts) ≡ take n (waiting_regions bs)
unfolding fill_transfers active_regions waiting_regions
fill_transfers-regions zero ts bs self out m m' d e = refl
fill_transfers-regions (suc n) [] bs self out m m' d e = absurd (cc)
fill_transfers-regions (suc n) (t ∷ ts) [] self out m m' d e = absurd (cc)
fill_transfers-regions (suc n) (t ∷ ts) (b ∷ bs) self out m m' d e = ground (
  arith,
  fill_transfers-regions n ts bs self out _ m' d.1 e,
  fill_transfers-other n ts bs self out _ m' t d.0 e,
)

module _ (this : ℕ) (view : List ℕ) (buffers : List Buffer) (m : Store) (h : ℕ) where
  -- With buffers, no transfer that is isochronous or stands twice, no stop requested, and libusb taking
  -- each of the first submissions, `submit` sleeps as a pipe in which as many of the buffers as there are
  -- transfers are active and the others wait; every run of callbacks is a run of that pipe; and while
  -- there is no error, the buffers that the transfers took, first in the first loop and then in
  -- callbacks, in the order in which they took them, with those that are left, are all buffers in
  -- their order. Where callbacks come also between the first submissions, the awaitable and the
  -- transfers are at each point as in some run of that pipe, with the same order of the buffers taken;
  -- what is in flight and what is still to submit are together in flight there.
  pub submit_refines :
      (results : ℕ → ℤ)
      → buffers ≢ []
      → Distinct view
      → NotIso m
      → Accepts results 0 (transfers_used view buffers)
      → (s : Sys) × (submit this view buffers m false h results ≡ pending s)
        × (view_pipe s ≡ start_pipe (transfers_used view buffers) (waiting_regions buffers))
        × ((cs : List Completion) (u : Sys)
            → Run s cs u
            → (given : List Region) × PipeRun (view_pipe s) given (view_pipe u)
              × (is_error u.self.ec ≡ false
                  → take (transfers_used view buffers) (waiting_regions buffers)
                      ++ (given ++ waiting_regions u.self.buf_current)
                    ≡ waiting_regions buffers))
        × ((cs : List Completion) (u : Sys) (rest : List ℕ)
            → Launch (before_loop s) s.flying cs u rest
            → (given : List Region) × (w : Sys) × PipeRun (view_pipe s) given (view_pipe w)
              × Alike u rest w
              × (is_error u.self.ec ≡ false
                  → take (transfers_used view buffers) (waiting_regions buffers)
                      ++ (given ++ waiting_regions u.self.buf_current)
                    ≡ waiting_regions buffers))
  unfolding filled make_awaitable
  submit_refines results ne d v a =
      let (m', e, same, loop) = submit_pending this view buffers m h results ne a in
      let n = transfers_used view buffers in
      let regions = waiting_regions buffers in
      let s = started this view buffers m h m' in
      let first : active_regions m' (take n view) ≡ take n regions =
        fill_transfers-regions n view buffers
          (record (make_awaitable this view buffers n) { cont = h }) _ m m' d loop in
      let rest = waiting_regions-drop n buffers in
      let ordered : (cs : List Completion) (u : Sys)
          → Run s cs u
          → (given : List Region) × PipeRun (view_pipe s) given (view_pipe u)
            × (is_error u.self.ec ≡ false
                → take n regions ++ (given ++ waiting_regions u.self.buf_current) ≡ regions) =
        λ cs u run.
          let (given, ran) = Run-PipeRun (Distinct-take n view d) (λ t. rw (same t) (v t)) run in
          (
            given,
            ran,
            λ ok.
                ap (λ l. take n regions ++ l) (PipeRun-order ran ok ∙ rest)
                ∙ take-append-drop n regions,
          ) in
      (
        s,
        e,
        ground (arith, first, rest),
        ordered,
        λ cs u left launch.
            let (w, run, alike) = Launch-Run launch in
            let (given, ran, order) = ordered cs w run in
            (
              given,
              w,
              ran,
              alike,
              λ ok.
                  ap (λ x. take n regions ++ (given ++ waiting_regions x.buf_current)) alike.self
                  ∙ order (ap (λ x. is_error x.ec) (sym alike.self) ∙ ok),
            ),
      )
