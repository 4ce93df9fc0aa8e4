-- ===== src/Ev/HandlerRef/Leaks.antt =====
-- Assigning a handler to a reference.
use co_usb.Prelude.{
  ℕ, ◌+◌, ◌≢◌, ◌<◌, Bool-cases, inl, inr, not, ◌&&◌, length, ◌==◌, ==_iff, if◌then◌else◌, arith,
}
use co_usb.Ev.HandlerRef.{Refs, assign_handler, ref}
use co_usb.Prelude.Slots.{slot, set_slot}
use co_usb.Prelude.Slots.{count}
use co_usb.Ev.HandlerRef.Counts.{Counter, Counted, Counter-subst, ref-Counter, dropped, replaced}

-- 1 where the reference led to `p` and then leads to another handler.
abbrev pub given_up : ℕ → ℕ → ℕ → ℕ
given_up p old handler = if (old == p) && not (handler == p) then 1 else 0

-- Where the counter of a stored reference-counted handler, whose address is not null, is the number of
-- references to it, modulo 2^64, then
-- after a handler is assigned to a reference it is that number too, except where the reference led to
-- this handler before and now leads to another: there the counter is one more than the references.
pub assign_handler-Counted :
    (p self handler : ℕ) (s : Refs)
    → p ≢ 0
    → self < length s.originals
    → Counted p s
    → let after = assign_handler self handler s in
      Counter
        (count p after.originals + given_up p (slot s.originals self) handler)
        (after.handlers p)
unfolding assign_handler ref
assign_handler-Counted p self handler s z h c =
    let old = slot s.originals self in
    let n = count p (set_slot s.originals self 0) in
    elim (Bool-cases (old == handler)) [
      | inl e ↦
          Counter-subst (ground (arith, e, ==_iff old handler, ==_iff old p, ==_iff handler p))
            (ground (arith, e)) c
      | inr e ↦
          Counter-subst
            (ground (
              arith,
              e,
              ==_iff old handler,
              ==_iff old p,
              ==_iff handler p,
              replaced p self handler s.originals z h,
              dropped p self s.originals z h,
            ))
            (ground (arith, e)) (ref-Counter p handler (count p s.originals) s z c)
    ]
