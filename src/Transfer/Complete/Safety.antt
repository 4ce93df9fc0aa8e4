-- ===== src/Transfer/Complete/Safety.antt =====
-- Every transfer that include/co_usb/transfer/detail/complete_sequence_awaitable.hpp has given to libusb
-- covers a part of one of the buffers.
use co_usb.Prelude.{
  ℕ, ◌≤◌, ◌<◌, ◌≡◌, ◌≢◌, refl, sym, ap, subst, ◌∙◌, Bool, true, false, some, List, [], ◌∷◌, ◌++◌,
  All, All-get, All-both, All-erase_at, All-snoc, Distinct, Distinct-erase_at, Distinct-rejoin,
  ==_iff, get_elem?, erase_at, if◌then◌else◌, arith,
}
use co_usb.Prelude.Int.{ℤ}
use co_usb.Prelude.Words.{size_mod}
use co_usb.Transfer.Record.{Transfer, Buffer, Store, update}
use co_usb.Transfer.Partial.Run.{Completion, finish}
use co_usb.Transfer.Partial.Success.{NotIso}
use co_usb.Transfer.Complete.{Awaitable, Progress, at}
use co_usb.Transfer.Complete.Accounting.{Step-types}
use co_usb.Transfer.Complete.Placement.{sizes, Good, Placed, Safe}
use co_usb.Transfer.Complete.Frame.{transfer_callback-Framed, transfer_callback-Resubmits}
use co_usb.Transfer.Complete.Resumption.{deliver-cases}
use co_usb.Transfer.Complete.Run.{Sys, deliver, completes}

-- Runs where libusb reports no more bytes than a transfer was submitted for.
pub data Served (s : Sys) : Sys → Type 0 where
  idle : Served s s
  serves :
      {u w : Sys} (i t : ℕ) (c : Completion) (r : ℤ)
      → Served s u
      → get_elem? u.flying i ≡ some t
      → c.actual_length ≤ (u.store t).length
      → deliver u i t c r ≡ some w
      → Served s w

pub Placed-less :
    (buffers : List Buffer) (limit free free' : ℕ) {x y : Transfer} {prg : Progress}
    → free' ≤ free
    → y.buffer ≡ x.buffer
    → y.length ≡ x.length
    → Placed buffers limit free x prg
    → Placed buffers limit free' y prg
Placed-less buffers limit free free' le b l p = record {
  buf = p.buf;
  good = p.good;
  starts = p.starts;
  moved = p.moved;
  expected = p.expected;
  here = b ∙ p.here;
  inside = omega (arith, p, l);
  short = omega (arith, p, l);
  room = omega (arith, p);
}

module _ (buffers : List Buffer) (limit : ℕ) where
  -- Every transfer at libusb is placed.
  pub record IsSafe (s : Sys) : Type 0 where
    pub cap : s.self.single_transfer_limit ≡ limit
    pub good : All (Good buffers limit) s.self.buf_current
    pub distinct : Distinct s.flying
    pub types : NotIso s.store
    pub safe : All (Safe buffers limit (sizes s.self.buf_current) s.store s.self.states) s.flying

  rejoin-Safe :
      (out : Awaitable) (m : Store) (accepted : Bool) (ts : List ℕ) (t : ℕ)
      → All (Safe buffers limit (sizes out.buf_current) m out.states) ts
      → (accepted ≡ true → Safe buffers limit (sizes out.buf_current) m out.states t)
      → All
          (Safe buffers limit (sizes out.buf_current) m out.states)
          (if accepted then ts ++ t ∷ [] else ts)
  rejoin-Safe out m true ts t h again =
      All-snoc (Safe buffers limit (sizes out.buf_current) m out.states) ts (again refl) h
  rejoin-Safe out m false ts t h again = h

  pub serve-IsSafe :
      (u : Sys) (i t : ℕ) (c : Completion) (r : ℤ) {w : Sys}
      → sizes buffers < size_mod
      → get_elem? u.flying i ≡ some t
      → c.actual_length ≤ (u.store t).length
      → deliver u i t c r ≡ some w
      → IsSafe u
      → IsSafe w
  serve-IsSafe u i t c r {w} all h fits e v =
      let (out, m', accepted, found, eq) = deliver-cases u i t c r e in
      let m = update u.store t (finish c (u.store t)) in
      let before : (prg : Progress) × (at u.self.states t ≡ some prg)
          × Placed buffers limit (sizes u.self.buf_current) (u.store t) prg =
        All-get (Safe buffers limit (sizes u.self.buf_current) u.store u.self.states) u.flying i
          v.safe h in
      let frame = transfer_callback-Framed buffers limit u.self m t r _ found v.good in
      let (other, rest) = Distinct-erase_at u.flying i v.distinct h in
      let left =
        All-erase_at (Safe buffers limit (sizes u.self.buf_current) u.store u.self.states) u.flying
          i v.safe in
      let kept : All (Safe buffers limit (sizes out.buf_current) m' out.states)
          (erase_at u.flying i) =
        All-both (λ p. p ≢ t) (Safe buffers limit (sizes u.self.buf_current) u.store u.self.states)
          (Safe buffers limit (sizes out.buf_current) m' out.states)
          (λ p n q.
            let kept : m' p ≡ u.store p = frame.store p n ∙ ground (arith, n, ==_iff p t) in
            (
              q.0,
              frame.entry p n ∙ q.1,
              Placed-less buffers limit _ _ frame.less (ap (λ x. x.buffer) kept)
                  (ap (λ x. x.length) kept) q.2,
            ))
          (erase_at u.flying i) other left in
      let same : m t ≡ finish c (u.store t) = ground arith in
      let again : accepted ≡ true → Safe buffers limit (sizes out.buf_current) m' out.states t =
        λ acc.
          transfer_callback-Resubmits buffers limit u.self m t r _ found v.cap all v.good
            (rw same (v.types t)) (rw same fits)
            (
              before.0,
              before.1,
              Placed-less buffers limit _ _ (omega arith) (ap (λ x. x.buffer) same)
                  (ap (λ x. x.length) same) before.2,
            )
            acc in
      subst IsSafe (sym eq) (record {
        cap = frame.cap ∙ v.cap;
        good = frame.good;
        distinct = Distinct-rejoin accepted (erase_at u.flying i) t other rest;
        types = subst (λ x. NotIso x.store) eq (Step-types (completes i t r h e) v.types);
        safe = rejoin-Safe out m' accepted (erase_at u.flying i) t kept again;
      })

  pub Served-IsSafe : {s u : Sys} → sizes buffers < size_mod → Served s u → IsSafe s → IsSafe u
  Served-IsSafe all idle v = v
  Served-IsSafe all (serves {u = u} i t c r run h fits e) v =
      serve-IsSafe u i t c r all h fits e (Served-IsSafe all run v)
