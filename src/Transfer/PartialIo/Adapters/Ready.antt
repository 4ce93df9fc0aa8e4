-- ===== src/Transfer/PartialIo/Adapters/Ready.antt =====
-- What the transfers hold when a read has submitted them.
use co_usb.Prelude.{
  ℕ, zero, suc, ◌≡◌, ◌≢◌, refl, ap, ◌∙◌, some, List, [], ◌∷◌, take, drop, true, false, ==_iff,
  arith,
}
use co_usb.Prelude.Int.{ℤ}
use co_usb.Transfer.Record.{Transfer, TransferType, Buffer, Store}
use co_usb.Transfer.Endpoint.{Direction, Endpoint}
use co_usb.Transfer.Sequence.{TransferSequence, resources}
use co_usb.Transfer.Operations.{FillFunctions}
use co_usb.Transfer.Operations.Filled.{IsFilled, IsDocumented, holds, Ready, prefill_lem}
use co_usb.Transfer.Partial.{Awaitable, make_awaitable, fill_transfers, await_ready, await_suspend}
use co_usb.Transfer.Partial.Run.{Sys}
use co_usb.Transfer.PartialIo.{pending, submit, transfers_used}
use co_usb.Transfer.PartialIo.Start.{Accepts, fill_transfers_lem, submit_transfers_all}
use co_usb.Transfer.PartialIo.Adapters.{view_of, bulk_partial_io, read_some, write_some}

-- The fields that say where a transfer goes.
abbrev pub target : Transfer → ℕ × ℕ × TransferType × ℕ
target t = (t.dev_handle, t.endpoint, t.type, t.timeout)

fill_transfers-target :
    (n : ℕ) (ts : List ℕ) (bs : List Buffer) (self self' : Awaitable) (m m' : Store) (p : ℕ)
    → fill_transfers n ts (record self { buf_current = bs }) m ≡ some (self', m')
    → target (m' p) ≡ target (m p)
unfolding fill_transfers
fill_transfers-target zero ts bs self self' m m' p e = cc e
fill_transfers-target (suc n) [] bs self self' m m' p e = absurd (cc e)
fill_transfers-target (suc n) (t ∷ ts) [] self self' m m' p e = absurd (cc e)
fill_transfers-target (suc n) (t ∷ ts) (b ∷ bs) self self' m m' p e =
    fill_transfers-target n ts bs self self' _ m' p e ∙ ground (arith, ==_iff p t)

pub target-IsFilled :
    {kind : TransferType} {devh ep limit : ℕ} {t u : Transfer}
    → target u ≡ target t
    → IsFilled kind devh ep limit t
    → IsFilled kind devh ep limit u
target-IsFilled e f = record {
  dev_handle = ap (λ x. x.0) e ∙ f.dev_handle;
  endpoint = ap (λ x. x.1) e ∙ f.endpoint;
  type = ap (λ x. x.2) e ∙ f.type;
  timeout = ap (λ x. x.3) e ∙ f.timeout;
}

submit-target :
    (this : ℕ) (view : List ℕ) (buffers : List Buffer) (m : Store) (h : ℕ) (results : ℕ → ℤ)
    → buffers ≢ []
    → Accepts results 0 (transfers_used view buffers)
    → (s : Sys) × (submit this view buffers m false h results ≡ pending s)
      × (s.flying ≡ take (transfers_used view buffers) view)
      × ((p : ℕ) → target (s.store p) ≡ target (m p))
unfolding submit make_awaitable await_ready await_suspend
submit-target this view buffers m h results ne a =
    let used = transfers_used view buffers in
    let begun : Awaitable = record (make_awaitable this view buffers used) { cont = h } in
    let (m', e, _) = fill_transfers_lem used view buffers begun m (omega arith) (omega arith) in
    let filled : Awaitable = record begun { buf_current = drop used buffers; in_flight = used } in
    (
      record { self = filled; store = m'; flying = take used view },
      ground (arith, e, submit_transfers_all used view 0 results filled a),
      refl,
      λ p. fill_transfers-target used view buffers begun _ m m' p e,
    )

-- With libusb's filling functions as documented, buffers, no stop requested, and libusb taking each of
-- the first submissions, a `bulk_partial_io` of a sequence is made, and its `read_some` and
-- `write_some` sleep with the first transfers of the sequence in flight, one for each buffer as far as
-- there are transfers; every transfer of the sequence is then a bulk transfer of the endpoint's device
-- and address with the timeout.
pub submit-bulk_partial_io :
    {d : Direction} (libusb : FillFunctions)
    → IsDocumented libusb
    → (seq : TransferSequence) (ep : Endpoint d) (timeout_ms : ℤ) (m : Store) (this h : ℕ)
      (buffers : List Buffer) (results : ℕ → ℤ)
    → buffers ≢ []
    → Accepts results 0 (transfers_used (view_of seq) buffers)
    → (p : ℕ) → holds p (resources seq) ≡ true
    → (m' : Store) × (bulk_partial_io libusb seq ep timeout_ms m ≡ some m')
      × (s : Sys) × (read_some this seq buffers m' false h results ≡ pending s)
      × (write_some this seq buffers m' false h results ≡ pending s)
      × (s.flying ≡ take (transfers_used (view_of seq) buffers) (view_of seq))
      × Ready ep timeout_ms TransferType.bulk (s.store p)
unfolding bulk_partial_io read_some write_some
submit-bulk_partial_io libusb doc seq ep timeout_ms m this h buffers results ne a p i =
    let (m', made, filled) = (prefill_lem libusb doc seq ep 0 timeout_ms m).0 in
    let (s, e, flying, kept) = submit-target this (view_of seq) buffers m' h results ne a in
    (m', made, s, e, e, flying, target-IsFilled (kept p) (filled.inside p i))
