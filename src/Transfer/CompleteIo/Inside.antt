-- ===== src/Transfer/CompleteIo/Inside.antt =====
-- The memory that the transfers of `complete_submit` of include/co_usb/transfer/complete_io.hpp cover,
-- from the first submissions on.
use co_usb.Prelude.{
  ℕ, zero, suc, ◌+◌, ◌≤◌, ◌<◌, ◌≡◌, ◌≢◌, refl, ap, ◌∙◌, min, false, some, none, List, [], ◌∷◌,
  ==_iff, take, drop, get_elem?, All, All-map, All-both, All-among, Distinct, Distinct-take, arith,
}
use co_usb.Prelude.Int.{ℤ}
use co_usb.Prelude.Words.{size_mod, int_half, int_of_size, int_of_size_lt}
use co_usb.Transfer.Record.{Transfer, Buffer, Store}
use co_usb.Transfer.Partial.Success.{NotIso}
use co_usb.Transfer.PartialIo.Start.{Accepts}
use co_usb.Transfer.Complete.{
  Awaitable, Progress, Progresses, at, put, get_or, new_progress, fill_transfers, make_awaitable,
}
use co_usb.Transfer.Complete.Entries.{at-put}
use co_usb.Transfer.Complete.Placement.{sizes, Good, Safe}
use co_usb.Transfer.Complete.Safety.{IsSafe, Served, Served-IsSafe}
use co_usb.Transfer.Complete.Run.{Sys}
use co_usb.Transfer.CompleteIo.{pending, complete_submit}
use co_usb.Transfer.CompleteIo.Resumption.{used, filled, started, Started, complete_submit_pending}

-- A buffer that does not go round the end of the addresses, and of which no part that is submitted is
-- longer than an `int` holds.
abbrev pub Addressable : ℕ → Buffer → Type 0
Addressable limit b = (min b.size limit < int_half) × (b.data_ptr + b.size < size_mod)

-- The transfer covers a part of one of the buffers, of at most `limit` bytes.
abbrev pub Inside : List Buffer → ℕ → Transfer → Type 0
Inside buffers limit x =
    (i : ℕ) × (b : Buffer) × (get_elem? buffers i ≡ some b)
    × (b.data_ptr ≤ x.buffer)
    × (x.buffer + x.length ≤ b.data_ptr + b.size)
    × (x.length ≤ limit)

pub sizes-drop : (n : ℕ) (bs : List Buffer) → sizes (drop n bs) ≤ sizes bs
unfolding sizes
sizes-drop zero bs = omega arith
sizes-drop (suc n) [] = omega arith
sizes-drop (suc n) (b ∷ bs) = omega (arith, sizes-drop n bs)

pub All-none : (ts : List ℕ) → All (λ t. at [] t ≡ none) ts
unfolding at
All-none [] = tt
All-none (t ∷ ts) = (refl, All-none ts)

-- The first loop gives no transfer but those of the list an entry or new fields.
pub fill_transfers-other :
    (n : ℕ) (ts : List ℕ) (bs : List Buffer) (self out : Awaitable) (m m' : Store) (p : ℕ)
    → All (λ t. t ≢ p) ts
    → fill_transfers n ts (record self { buf_current = bs }) m ≡ some (out, m')
    → (at out.states p ≡ at self.states p) × (m' p ≡ m p)
unfolding fill_transfers
fill_transfers-other zero ts bs self out m m' p h e = ground (arith, e)
fill_transfers-other (suc n) [] bs self out m m' p h e = absurd (cc)
fill_transfers-other (suc n) (t ∷ ts) [] self out m m' p h e = absurd (cc)
fill_transfers-other (suc n) (t ∷ ts) (b ∷ bs) self out m m' p h e =
    let (entry, kept) =
      fill_transfers-other n ts bs
        (record self {
          states = put self.states t (record (get_or (at self.states t) new_progress) {
            ptr = b.data_ptr;
            expected = b.size;
          });
        })
        out _ m' p h.1 e in
    (entry ∙ grind (arith, h.0, at-put, ==_iff t p), kept ∙ ground (arith, h.0, ==_iff t p))

module _ (buffers : List Buffer) (limit : ℕ) where
  pub All-Good : All (Addressable limit) buffers → All (Good buffers limit) buffers
  All-Good h =
      All-both (Addressable limit) (λ b. (i : ℕ) × (get_elem? buffers i ≡ some b))
        (Good buffers limit) (λ b a i. record { fits = a.0; ends = a.1; index = i.0; among = i.1 })
        buffers h (All-among buffers)

  Good-drop :
      (n : ℕ) (bs : List Buffer)
      → All (Good buffers limit) bs
      → All (Good buffers limit) (drop n bs)
  Good-drop zero bs g = g
  Good-drop (suc n) [] g = tt
  Good-drop (suc n) (b ∷ bs) g = Good-drop n bs g.1

  -- The first loop places every transfer it passes.
  fill_transfers-Safe :
      (n : ℕ) (ts : List ℕ) (bs : List Buffer) (self out : Awaitable) (m m' : Store)
      → self.single_transfer_limit ≡ limit
      → Distinct ts
      → All (λ t. at self.states t ≡ none) ts
      → All (Good buffers limit) bs
      → sizes bs ≤ sizes buffers
      → fill_transfers n ts (record self { buf_current = bs }) m ≡ some (out, m')
      → All (Safe buffers limit (sizes (drop n bs)) m' out.states) (take n ts)
  unfolding fill_transfers sizes
  fill_transfers-Safe zero ts bs self out m m' l d new g le e = tt
  fill_transfers-Safe (suc n) [] bs self out m m' l d new g le e = tt
  fill_transfers-Safe (suc n) (t ∷ ts) [] self out m m' l d new g le e = absurd (cc)
  fill_transfers-Safe (suc n) (t ∷ ts) (b ∷ bs) self out m m' l d new g le e =
      let next : Awaitable = record self {
        states = put self.states t (record (get_or (at self.states t) new_progress) {
          ptr = b.data_ptr;
          expected = b.size;
        });
      } in
      let (entry, kept) = fill_transfers-other n ts bs next out _ m' t d.0 e in
      let prg : Progress = record { ptr = b.data_ptr; expected = b.size; total = 0 } in
      let fresh =
        All-both (λ p. p ≢ t) (λ p. at self.states p ≡ none) (λ p. at next.states p ≡ none)
          (λ p n q. grind (arith, at-put, n, q, ==_iff t p)) ts d.0 new.1 in
      let cut : int_of_size (min b.size limit) ≡ min b.size limit =
        int_of_size_lt _ (omega (arith, g.0.fits)) in
      (
        (
          prg,
          entry ∙ grind (arith, at-put, new.0),
          record {
            buf = b;
            good = g.0;
            starts = omega arith;
            moved = omega arith;
            expected = refl;
            here = ap (λ x. x.buffer) kept ∙ ground arith;
            inside = ground (arith, kept, l, cut);
            short = ground (arith, kept, l, cut);
            room = omega (arith, sizes-drop n bs, le);
          },
        ),
        fill_transfers-Safe n ts bs next out _ m' l d.1 fresh g.1 (omega (arith, le)) e,
      )

  -- With no transfer that stands twice, the first submissions are placed.
  pub started-IsSafe :
      (this : ℕ) (view : List ℕ) (m : Store) (h : ℕ) (m' : Store) (states : Progresses)
      → Distinct view
      → All (Addressable limit) buffers
      → NotIso m
      → Started this view buffers limit m h m' states
      → IsSafe buffers limit (started this view buffers limit m h m' states)
  unfolding filled make_awaitable
  started-IsSafe this view m h m' states d a notiso st =
      let n = used this view buffers limit m h in
      let good = All-Good a in
      record {
        cap = refl;
        good = Good-drop n buffers good;
        distinct = Distinct-take n view d;
        types = λ t. rw (st.types t) (notiso t);
        safe =
            fill_transfers-Safe n view buffers
              (record (make_awaitable this view buffers n limit) { cont = h }) _ m m' refl d
              (All-none view) good (omega arith) st.loop;
      }

  -- With buffers, none of which goes round the end of the addresses, no submitted part of which is longer
  -- than an `int` holds, and whose sizes together are below 2^64; with no transfer that is isochronous or
  -- stands twice; with no stop requested, and libusb taking each of the first submissions,
  -- `complete_submit` sleeps; and while libusb reports for each completion no more bytes than it was
  -- asked for, every transfer in flight covers, in every run, a part of one of the buffers, no longer
  -- than the limit for a single transfer.
  pub complete_submit-Inside :
      (this : ℕ) (view : List ℕ) (m : Store) (h : ℕ) (results : ℕ → ℤ)
      → buffers ≢ []
      → Distinct view
      → All (Addressable limit) buffers
      → sizes buffers < size_mod
      → NotIso m
      → Accepts results 0 (used this view buffers limit m h)
      → (s : Sys) × (complete_submit this view buffers limit m false h results ≡ pending s)
        × ((u : Sys) → Served s u → All (λ t. Inside buffers limit (u.store t)) u.flying)
  complete_submit-Inside this view m h results ne d a all notiso acc =
      let (m', states, e, st) =
        complete_submit_pending this view buffers limit m h results ne acc in
      (
        started this view buffers limit m h m' states,
        e,
        λ u run.
            let safe =
              Served-IsSafe buffers limit all run
                (started-IsSafe this view m h m' states d a notiso st) in
            All-map (Safe buffers limit (sizes u.self.buf_current) u.store u.self.states)
              (λ t. Inside buffers limit (u.store t))
              (λ t (prg, _, p). (
                p.good.index,
                p.buf,
                p.good.among,
                omega (arith, p.here, p.starts),
                omega (arith, p.here, p.inside),
                omega (arith, p.short),
              ))
              u.flying safe.safe,
      )
