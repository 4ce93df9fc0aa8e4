-- ===== src/Transfer/CompleteIo/Ending.antt =====
-- `complete_submit` of include/co_usb/transfer/complete_io.hpp has a bounded number of callbacks.
use co_usb.Prelude.{
  ℕ, zero, suc, ◌+◌, ◌≤◌, ◌<◌, ◌≡◌, ◌≢◌, ◌∙◌, false, some, none, List, [], ◌∷◌, ==_iff, length,
  length-take, length-drop, take, drop, All, All-both, Distinct, arith,
}
use co_usb.Prelude.Int.{ℤ}
use co_usb.Prelude.Words.{size_mod}
use co_usb.Transfer.Record.{Buffer, Store}
use co_usb.Transfer.Partial.Success.{NotIso}
use co_usb.Transfer.PartialIo.Start.{Accepts}
use co_usb.Transfer.Complete.{
  Awaitable, Progress, at, put, get_or, new_progress, fill_transfers, make_awaitable,
}
use co_usb.Transfer.Complete.Entries.{at-put}
use co_usb.Transfer.Complete.Placement.{sizes}
use co_usb.Transfer.Complete.Ending.{Busy, left_of, sum_left, ahead, Busy-ahead}
use co_usb.Transfer.Complete.Run.{Sys}
use co_usb.Transfer.CompleteIo.{pending, complete_submit}
use co_usb.Transfer.CompleteIo.Resumption.{used, filled, started, complete_submit_pending}
use co_usb.Transfer.CompleteIo.Inside.{Addressable, All-none, fill_transfers-other, started-IsSafe}

-- The first loop leaves each transfer all of its buffer to come.
fill_transfers-left :
    (n : ℕ) (ts : List ℕ) (bs : List Buffer) (self out : Awaitable) (m m' : Store)
    → Distinct ts
    → All (λ t. at self.states t ≡ none) ts
    → fill_transfers n ts (record self { buf_current = bs }) m ≡ some (out, m')
    → sum_left out.states (take n ts) + sizes (drop n bs) ≡ sizes bs
unfolding fill_transfers sum_left left_of sizes
fill_transfers-left zero ts bs self out m m' d new e = omega arith
fill_transfers-left (suc n) [] bs self out m m' d new e = absurd (cc)
fill_transfers-left (suc n) (t ∷ ts) [] self out m m' d new e = absurd (cc)
fill_transfers-left (suc n) (t ∷ ts) (b ∷ bs) self out m m' d new e =
    let next : Awaitable = record self {
      states =
          put self.states t (record (get_or (at self.states t) new_progress) {
            ptr = b.data_ptr;
            expected = b.size;
          });
    } in
    let fresh =
      All-both (λ p. p ≢ t) (λ p. at self.states p ≡ none) (λ p. at next.states p ≡ none)
        (λ p n q. grind (arith, at-put, n, q, ==_iff t p)) ts d.0 new.1 in
    let (entry, _) = fill_transfers-other n ts bs next out _ m' t d.0 e in
    let prg : Progress = record { ptr = b.data_ptr; expected = b.size; total = 0 } in
    let found : at out.states t ≡ some prg = entry ∙ grind (arith, at-put, new.0) in
    ground (arith, found, fill_transfers-left n ts bs next out _ m' d.1 fresh e)

-- With buffers, none of which goes round the end of the addresses, no submitted part of which is longer
-- than an `int` holds, and whose sizes together are below 2^64; with no transfer that is isochronous or
-- stands twice; with no stop requested, and libusb taking each of the first submissions,
-- `complete_submit` sleeps; and where each completion has moved at least one byte and no more than it
-- was asked for, the callbacks that have come and the transfers in flight are together never more than
-- the buffers and their bytes, so no run goes on for ever.
pub complete_submit_ends :
    (buffers : List Buffer) (limit this : ℕ) (view : List ℕ) (m : Store) (h : ℕ) (results : ℕ → ℤ)
    → buffers ≢ []
    → Distinct view
    → All (Addressable limit) buffers
    → sizes buffers < size_mod
    → NotIso m
    → Accepts results 0 (used this view buffers limit m h)
    → (s : Sys) × (complete_submit this view buffers limit m false h results ≡ pending s)
      × ((n : ℕ) (u : Sys) → Busy s n u → n + length u.flying ≤ length buffers + sizes buffers)
unfolding filled make_awaitable ahead
complete_submit_ends buffers limit this view m h results ne d a all notiso acc =
    let (m', states, e, st) = complete_submit_pending this view buffers limit m h results ne acc in
    let n = used this view buffers limit m h in
    let start = started this view buffers limit m h m' states in
    let safe = started-IsSafe buffers limit this view m h m' states d a notiso st in
    let bytes : sum_left states (take n view) + sizes (drop n buffers) ≡ sizes buffers =
      fill_transfers-left n view buffers
        (record (make_awaitable this view buffers n limit) { cont = h }) _ m m' d (All-none view)
        st.loop in
    (
      start,
      e,
      λ k u run.
          let (_, le) = Busy-ahead buffers limit all safe run in
          omega (arith, le, bytes, length-take n view, length-drop n buffers),
    )
