-- ===== src/Transfer/Complete/Resumption.antt =====
-- When the coroutine of include/co_usb/transfer/detail/complete_sequence_awaitable.hpp is posted, if
-- libusb took every transfer of the first loop.
use co_usb.Prelude.{
  ℕ, ◌<◌, ◌≡◌, refl, sym, subst, ◌∙◌, false, Bool, true, some, List, [], ◌∷◌, ◌++◌, ◌==◌, length,
  get_elem?, erase_at, is_some, length-erase_at, length-append, get_elem?-lt, All-snoc,
  All-erase_at, Option-cases, inl, inr, if◌then◌else◌, arith,
}
use co_usb.Prelude.Int.{ℤ}
use co_usb.Prelude.Words.{dec_size, inc_size_lt, dec_size_pos, size_mod}
use co_usb.Transfer.Record.{Store, update}
use co_usb.Transfer.Partial.Run.{Completion, finish}
use co_usb.Transfer.Complete.{Awaitable, Progresses, at, transfer_callback}
use co_usb.Transfer.Complete.Entries.{Tracked, Tracked-get}
use co_usb.Transfer.Complete.Counting.{
  transfer_callback-Returned, transfer_callback-Tracked, transfer_callback-total,
}
use co_usb.Transfer.Complete.Run.{Sys, deliver, Step, completes, Run, here, next}

-- The counter is the number of transfers at libusb, each of which has an entry, and the coroutine
-- was posted, once, if and only if that number is 0.
pub record IsLive (s : Sys) : Type 0 where
  pub counted : s.self.in_flight ≡ length s.flying
  pub bounded : length s.flying < size_mod
  pub posted : s.self.posted ≡ (if length s.flying == 0 then s.self.cont ∷ [] else [])
  pub tracked : Tracked s.self.states s.flying

-- A callback as the callback of some result.
pub deliver-cases :
    (s : Sys) (i t : ℕ) (c : Completion) (r : ℤ) {u : Sys}
    → deliver s i t c r ≡ some u
    → (out : Awaitable) × (m' : Store) × (accepted : Bool) × (transfer_callback s.self
          (update s.store t (finish c (s.store t)))
          t
          r
        ≡ some (out, m', accepted))
      × (u ≡ record {
        self = out;
        store = m';
        flying = if accepted then erase_at s.flying i ++ t ∷ [] else erase_at s.flying i;
      })
unfolding deliver
deliver-cases s i t c r e =
    elim (Option-cases (transfer_callback s.self (update s.store t (finish c (s.store t))) t r)) [
      | inl none_at ↦ ground arith
      | inr ((out, m', accepted), found) ↦ (out, m', accepted, found, ground arith)
    ]

rejoin-Tracked :
    (states : Progresses) (accepted : Bool) (ts : List ℕ) (t : ℕ)
    → Tracked states ts
    → is_some (at states t) ≡ true
    → Tracked states (if accepted then ts ++ t ∷ [] else ts)
rejoin-Tracked states true ts t h k = All-snoc (λ p. is_some (at states p) ≡ true) ts k h
rejoin-Tracked states false ts t h k = h

pub record Followed (s u : Sys) : Type 0 where
  pub live : IsLive u
  pub cont : u.self.cont ≡ s.self.cont

Step-Followed : {s u : Sys} {c : Completion} → Step s c u → IsLive s → Followed s u
Step-Followed {s} {u} {c} (completes i t r h e) v =
    let (out, m', accepted, found, eq) = deliver-cases s i t c r e in
    let m = update s.store t (finish c (s.store t)) in
    let kept = transfer_callback-Tracked s.self m t r out m' accepted s.flying found v.tracked in
    let left = All-erase_at (λ p. is_some (at out.states p) ≡ true) s.flying i kept in
    let back = transfer_callback-Returned s.self m t r out m' accepted found in
    let lt = get_elem?-lt s.flying i h in
    let erased = length-erase_at s.flying i lt in
    let joined = length-append (erase_at s.flying i) (t ∷ []) in
    let lowered = dec_size_pos s.self.in_flight (omega arith) (omega arith) in
    subst (Followed s) (sym eq) (record {
      live = record {
        counted =
            ground (arith, back, erased, joined, lowered, inc_size_lt (dec_size s.self.in_flight));
        bounded = ground (arith, erased, joined);
        posted = ground (arith, back, erased, joined, lowered);
        tracked =
            rejoin-Tracked out.states accepted (erase_at s.flying i) t left
              (Tracked-get out.states s.flying i kept h);
      };
      cont = ground (arith, back);
    })

pub Run-Followed : {s u : Sys} {cs : List Completion} → IsLive s → Run s cs u → Followed s u
Run-Followed v here = record { live = v; cont = refl }
Run-Followed v (next run st) =
    let rest = Run-Followed v run in
    let step = Step-Followed st rest.live in
    record { live = step.live; cont = step.cont ∙ rest.cont }

-- In a live state no callback throws, whatever libusb reports.
pub deliver-total :
    (s : Sys) (i t : ℕ) (c : Completion) (r : ℤ)
    → IsLive s
    → get_elem? s.flying i ≡ some t
    → is_some (deliver s i t c r) ≡ true
unfolding deliver
deliver-total s i t c r v h = ground (
  arith,
  transfer_callback-total s.self (update s.store t (finish c (s.store t))) t r,
  Tracked-get s.self.states s.flying i v.tracked h,
)
