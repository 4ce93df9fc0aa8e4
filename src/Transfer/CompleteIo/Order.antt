-- ===== src/Transfer/CompleteIo/Order.antt =====
-- Where every buffer fits into one transfer, `complete_submit` of
-- include/co_usb/transfer/complete_io.hpp has its transfers take the buffers in their
-- order.
use co_usb.Prelude.{
  ℕ, zero, suc, ◌<◌, ◌≡◌, ◌≢◌, refl, sym, ap, ◌∙◌, min, false, some, List, [], ◌∷◌, ◌++◌, take,
  drop, take-append-drop, All, Distinct, arith,
}
use co_usb.Prelude.Int.{ℤ}
use co_usb.Prelude.Words.{size_mod, int_of_size, int_of_size_lt}
use co_usb.Errors.{is_error}
use co_usb.Transfer.Record.{Buffer, Store}
use co_usb.Transfer.Pipe.{Region, PipeRun, PipeRun-order}
use co_usb.Transfer.Pipe.Stage.{waiting_regions, active_regions, waiting_regions-drop, start_pipe}
use co_usb.Transfer.Partial.Success.{NotIso}
use co_usb.Transfer.PartialIo.{transfers_used}
use co_usb.Transfer.PartialIo.Start.{Accepts}
use co_usb.Transfer.Complete.{
  Awaitable, Progress, at, put, get_or, new_progress, fill_transfers, make_awaitable,
}
use co_usb.Transfer.Complete.Entries.{at-put}
use co_usb.Transfer.Complete.Placement.{sizes}
use co_usb.Transfer.Complete.Refine.{Fits, Whole, Full, IsWhole, view_pipe, Full-PipeRun}
use co_usb.Transfer.Complete.Launch.{FullLaunch, before_loop, Alike, FullLaunch-Full}
use co_usb.Transfer.Complete.Run.{Sys}
use co_usb.Transfer.CompleteIo.{pending, complete_submit}
use co_usb.Transfer.CompleteIo.Resumption.{filled, started, complete_submit_pending}
use co_usb.Transfer.CompleteIo.Inside.{Addressable, fill_transfers-other, started-IsSafe}

-- The first loop submits every transfer for the whole of its buffer.
fill_transfers-Whole :
    (limit n : ℕ) (ts : List ℕ) (bs : List Buffer) (self out : Awaitable) (m m' : Store)
    → self.single_transfer_limit ≡ limit
    → Distinct ts
    → All (Addressable limit) bs
    → All (Fits limit) bs
    → fill_transfers n ts (record self { buf_current = bs }) m ≡ some (out, m')
    → All (Whole m' out.states) (take n ts)
      × (active_regions m' (take n ts) ≡ take n (waiting_regions bs))
      × All (Fits limit) (drop n bs)
unfolding fill_transfers waiting_regions active_regions
fill_transfers-Whole limit zero ts bs self out m m' l d a f e = (tt, refl, f)
fill_transfers-Whole limit (suc n) [] bs self out m m' l d a f e = absurd (cc)
fill_transfers-Whole limit (suc n) (t ∷ ts) [] self out m m' l d a f e = absurd (cc)
fill_transfers-Whole limit (suc n) (t ∷ ts) (b ∷ bs) self out m m' l d a f e =
    let prg : Progress = record (get_or (at self.states t) new_progress) {
      ptr = b.data_ptr;
      expected = b.size;
    } in
    let next : Awaitable = record self { states = put self.states t prg } in
    let (entry, kept) = fill_transfers-other n ts bs next out _ m' t d.0 e in
    let found : at out.states t ≡ some prg = entry ∙ grind (arith, at-put) in
    let cut : min b.size limit ≡ b.size = omega (arith, f.0) in
    let int : int_of_size b.size ≡ b.size = int_of_size_lt b.size (omega (arith, a.0, cut)) in
    let (whole, regions, fits) = fill_transfers-Whole limit n ts bs next out _ m' l d.1 a.1 f.1 e in
    (
      ((prg, found, ground (arith, kept, l, cut, int)), whole),
      ground (arith, kept, l, cut, regions),
      fits,
    )

-- With buffers, each no longer than the limit for a single transfer and than an `int` holds, and none of
-- which goes round the end of the addresses, and whose sizes together are below 2^64; with no transfer
-- that is isochronous or stands twice; with no stop requested, and libusb taking each of the first
-- submissions, `complete_submit` sleeps as the pipe that `submit` sleeps as; every run in which each
-- completion has moved all that it was asked for is a run of that pipe; and while there is no error,
-- the buffers that the transfers took, first in the first loop and then in callbacks, in the order in
-- which they took them, with those that are left, are all buffers in their order. Where such callbacks
-- come also between the first submissions, the awaitable and the transfers are at each point as in
-- some run of that pipe, with the same order of the buffers taken; what is in flight and what is still
-- to submit are together in flight there.
pub complete_submit_refines :
    (this : ℕ) (view : List ℕ) (buffers : List Buffer) (limit : ℕ) (m : Store) (h : ℕ)
    (results : ℕ → ℤ)
    → buffers ≢ []
    → Distinct view
    → All (Addressable limit) buffers
    → All (Fits limit) buffers
    → sizes buffers < size_mod
    → NotIso m
    → Accepts results 0 (transfers_used view buffers)
    → (s : Sys) × (complete_submit this view buffers limit m false h results ≡ pending s)
      × (view_pipe s ≡ start_pipe (transfers_used view buffers) (waiting_regions buffers))
      × ((u : Sys)
          → Full s u
          → (given : List Region) × PipeRun (view_pipe s) given (view_pipe u)
            × (is_error u.self.ec ≡ false
                → take (transfers_used view buffers) (waiting_regions buffers)
                    ++ (given ++ waiting_regions u.self.buf_current)
                  ≡ waiting_regions buffers))
      × ((u : Sys) (left : List ℕ)
          → FullLaunch (before_loop s) s.flying u left
          → (given : List Region) × (w : Sys) × PipeRun (view_pipe s) given (view_pipe w)
            × Alike u left w
            × (is_error u.self.ec ≡ false
                → take (transfers_used view buffers) (waiting_regions buffers)
                    ++ (given ++ waiting_regions u.self.buf_current)
                  ≡ waiting_regions buffers))
unfolding filled make_awaitable
complete_submit_refines this view buffers limit m h results ne d a f all notiso acc =
    let (m', states, e, st) = complete_submit_pending this view buffers limit m h results ne acc in
    let n = transfers_used view buffers in
    let regions = waiting_regions buffers in
    let (whole, first, fits) =
      fill_transfers-Whole limit n view buffers
        (record (make_awaitable this view buffers n limit) { cont = h }) _ m m' refl d a f
        st.loop in
    let rest = waiting_regions-drop n buffers in
    let begins : IsWhole buffers limit (started this view buffers limit m h m' states) = record {
      safe = started-IsSafe buffers limit this view m h m' states d a notiso st;
      whole = whole;
      fits = fits;
    } in
    let s = started this view buffers limit m h m' states in
    let ordered : (u : Sys)
        → Full s u
        → (given : List Region) × PipeRun (view_pipe s) given (view_pipe u)
          × (is_error u.self.ec ≡ false
              → take n regions ++ (given ++ waiting_regions u.self.buf_current) ≡ regions) =
      λ u run.
        let (_, (given, ran)) = Full-PipeRun buffers limit all begins run in
        (
          given,
          ran,
          λ ok.
              ap (λ l. take n regions ++ l) (PipeRun-order ran ok ∙ rest)
              ∙ take-append-drop n regions,
        ) in
    (
      s,
      e,
      ground (arith, first, rest),
      ordered,
      λ u left launch.
          let (w, run, alike) = FullLaunch-Full launch in
          let (given, ran, order) = ordered w run in
          (
            given,
            w,
            ran,
            alike,
            λ ok.
                ap (λ x. take n regions ++ (given ++ waiting_regions x.buf_current)) alike.self
                ∙ order (ap (λ x. is_error x.ec) (sym alike.self) ∙ ok),
          ),
    )
