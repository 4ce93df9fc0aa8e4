-- ===== src/Transfer/CompleteIo/Adapters/Ready.antt =====
-- A transfer sequence of include/co_usb/transfer/complete_io.hpp from its making to the end of a read.
use co_usb.Prelude.{
  ℕ, zero, suc, ◌%◌, ◌≡◌, ◌≢◌, sym, ap, ◌∙◌, subst, Bool-cases, inl, inr, some, List, [], ◌∷◌,
  length, true, false, ==_iff, arith,
}
use co_usb.Prelude.Int.{ℤ}
use co_usb.Prelude.Words.{size_mod}
use co_usb.Errors.{is_error}
use co_usb.Transfer.Record.{TransferType, Buffer, Store, is_isochronous}
use co_usb.Transfer.Endpoint.{Direction, Endpoint}
use co_usb.Transfer.Sequence.{TransferSequence, resources}
use co_usb.Transfer.Operations.{FillFunctions}
use co_usb.Transfer.Operations.Filled.{IsDocumented, holds, Ready, prefill_lem}
use co_usb.Transfer.Partial.Run.{Completion}
use co_usb.Transfer.Partial.Success.{NotIso, bytes_of}
use co_usb.Transfer.PartialIo.{transfers_used}
use co_usb.Transfer.PartialIo.Start.{Accepts}
use co_usb.Transfer.PartialIo.Adapters.{view_of}
use co_usb.Transfer.PartialIo.Adapters.Ready.{target, target-IsFilled}
use co_usb.Transfer.Complete.{
  Awaitable, fill_transfers, await_resume, make_awaitable, put, at, get_or, new_progress,
}
use co_usb.Transfer.Complete.Run.{Sys, Run}
use co_usb.Transfer.CompleteIo.{Submission, pending}
use co_usb.Transfer.CompleteIo.Resumption.{complete_submit_pending, complete_submit_success}
use co_usb.Transfer.CompleteIo.Adapters.{bulk_complete_io, read, write}

fill_transfers-target :
    (n : ℕ) (ts : List ℕ) (bs : List Buffer) (self self' : Awaitable) (m m' : Store) (p : ℕ)
    → fill_transfers n ts (record self { buf_current = bs }) m ≡ some (self', m')
    → target (m' p) ≡ target (m p)
unfolding fill_transfers
fill_transfers-target zero ts bs self self' m m' p e = ground (arith, e)
fill_transfers-target (suc n) [] bs self self' m m' p e = absurd (cc)
fill_transfers-target (suc n) (t ∷ ts) [] self self' m m' p e = absurd (cc)
fill_transfers-target (suc n) (t ∷ ts) (b ∷ bs) self self' m m' p e =
    fill_transfers-target n ts bs
      (record self {
        states = put self.states t (record (get_or (at self.states t) new_progress) {
          ptr = b.data_ptr;
          expected = b.size;
        });
      })
      self' _ m' p e
    ∙ ground (arith, ==_iff p t)

-- A transfer that is filled for bulk or is as it was is not isochronous.
filled-NotIso :
    {d : Direction} (seq : TransferSequence) (ep : Endpoint d) (timeout_ms : ℤ) (m m' : Store)
    → NotIso m
    → ((p : ℕ) → holds p (resources seq) ≡ true → Ready ep timeout_ms TransferType.bulk (m' p))
    → ((p : ℕ) → holds p (resources seq) ≡ false → m' p ≡ m p)
    → NotIso m'
filled-NotIso seq ep timeout_ms m m' before inside outside p =
    elim (Bool-cases (holds p (resources seq))) [
      | inl i ↦ ap is_isochronous (inside p i).type
      | inr o ↦ ap (λ x. is_isochronous x.type) (outside p o) ∙ before p
    ]

abbrev system_of : Sys → Submission → Sys
system_of s (pending u) = u
system_of s _ = s

-- With libusb's filling functions as documented, and no isochronous transfer; with buffers, a sequence
-- that is not empty, no stop requested, and libusb taking each of the first submissions, a
-- `bulk_complete_io` of the sequence is made, and its `read` and `write` sleep; every transfer of the
-- sequence is then a bulk transfer of the endpoint's device and address with the timeout; and when
-- a run of callbacks has left no transfer in flight and no error, every buffer was taken, and the result
-- is the sum of the bytes that the completions reported, modulo 2^64.
pub read-bulk_complete_io :
    {d : Direction} (libusb : FillFunctions)
    → IsDocumented libusb
    → (seq : TransferSequence) (ep : Endpoint d) (timeout_ms : ℤ) (m : Store) (this h limit : ℕ)
      (buffers : List Buffer) (results : ℕ → ℤ)
    → NotIso m
    → buffers ≢ []
    → view_of seq ≢ []
    → Accepts results 0 (transfers_used (view_of seq) buffers)
    → (m' : Store) × (bulk_complete_io libusb seq ep timeout_ms m ≡ some m')
      × (s : Sys) × (read this seq buffers limit m' false h results ≡ pending s)
      × (write this seq buffers limit m' false h results ≡ pending s)
      × ((p : ℕ)
          → holds p (resources seq) ≡ true
          → Ready ep timeout_ms TransferType.bulk (s.store p))
      × ((cs : List Completion) (u : Sys)
          → Run s cs u
          → u.flying ≡ []
          → is_error u.self.ec ≡ false
          → (length u.self.buf_current ≡ 0)
            × (await_resume u.self ≡ (u.self.ec, bytes_of cs % size_mod)))
unfolding bulk_complete_io read write
read-bulk_complete_io libusb doc seq ep timeout_ms m this h limit buffers results iso ne nv a =
    let (m', made, filled) = (prefill_lem libusb doc seq ep 0 timeout_ms m).0 in
    let view = view_of seq in
    let used = transfers_used view buffers in
    let iso' = filled-NotIso seq ep timeout_ms m m' iso filled.inside filled.outside in
    let (_, _, e, st) = complete_submit_pending this view buffers limit m' h results ne a in
    let (s, e', ends) = complete_submit_success this view buffers limit m' h results ne nv a iso' in
    let same = ap (system_of s) (sym e ∙ e') in
    (
      m',
      made,
      s,
      e',
      e',
      λ p i.
          subst (λ x. Ready ep timeout_ms TransferType.bulk (x.store p)) same
            (target-IsFilled
              (fill_transfers-target used view buffers
                (record (make_awaitable this view buffers used limit) { cont = h }) _ m' _ p
                st.loop)
              (filled.inside p i)),
      ends,
    )
