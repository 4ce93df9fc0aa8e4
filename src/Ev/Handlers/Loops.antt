-- ===== src/Ev/Handlers/Loops.antt =====
-- When the event loops end.
mod Tests
use co_usb.Prelude.{
  ℕ, zero, suc, ◌+◌, ◌≤◌, ◌<◌, ◌≡◌, sym, subst, Bool, true, false, not, ◌&&◌, Option, some, ◌==◌,
  if◌then◌else◌, arith,
}
use co_usb.Prelude.Int.{ℤ, ◌==ℤ◌}
use co_usb.Libusb
use co_usb.Errors.{make_usb_error_code}
use co_usb.Ev.Handlers.{LoopEnd, trivial_loop, refcounted_loop}

-- The call of libusb in a round succeeds; and the second test lets the loop go on.
abbrev pub ok : (ℕ → ℤ) → ℕ → Bool
ok result i = result i ==ℤ Libusb.success

abbrev pub goes_on : (ℕ → Bool) → (ℕ → ℕ) → ℕ → Bool
goes_on stop_requested counter i = not (stop_requested i && (counter i == 0))

-- What the loop makes of its round `i`, where it ends there.
abbrev pub end_at : (ℕ → ℤ) → ℕ → LoopEnd
end_at result i =
    if ok result i
    then LoopEnd.stopped (i + 1)
    else LoopEnd.threw (i + 1) (make_usb_error_code (result i))

module _ (stop_requested : ℕ → Bool) (counter : ℕ → ℕ) (result : ℕ → ℤ) where
  refcounted_loop-from :
      (n i last fuel : ℕ)
      → last ≡ i + n
      → ((j : ℕ) → i ≤ j → j < last → (ok result j && goes_on stop_requested counter j) ≡ true)
      → n < fuel
      → (ok result last && goes_on stop_requested counter last) ≡ false
      → refcounted_loop stop_requested counter result fuel i ≡ some (end_at result last)
  unfolding refcounted_loop
  refcounted_loop-from n i last zero e h lt f = absurd (omega arith)
  refcounted_loop-from zero i last (suc fuel) e h lt f =
      let same : last ≡ i = omega arith in
      subst
        (λ k. refcounted_loop stop_requested counter result (suc fuel) i ≡ some (end_at result k))
        (sym same)
        (ends (subst (λ k. (ok result k && goes_on stop_requested counter k) ≡ false) same f))
    where
      ends :
          (ok result i && goes_on stop_requested counter i) ≡ false
          → refcounted_loop stop_requested counter result (suc fuel) i ≡ some (end_at result i)
      ends f = ground arith
  refcounted_loop-from (suc n) i last (suc fuel) e h lt f = ground (
    arith,
    h i (omega arith) (omega arith),
    refcounted_loop-from n (i + 1) last fuel (omega arith) (λ j p q. h j (omega arith) q)
        (omega arith) f,
  )

  trivial_loop-from :
      (n i last fuel : ℕ)
      → last ≡ i + n
      → ((j : ℕ) → i ≤ j → j < last → (ok result j && not (stop_requested j)) ≡ true)
      → n < fuel
      → stop_requested last ≡ true
      → trivial_loop stop_requested counter result fuel i ≡ some (LoopEnd.stopped last)
  unfolding trivial_loop
  trivial_loop-from n i last zero e h lt f = absurd (omega arith)
  trivial_loop-from zero i last (suc fuel) e h lt f =
      let same : last ≡ i = omega arith in
      subst
        (λ k. trivial_loop stop_requested counter result (suc fuel) i ≡ some (LoopEnd.stopped k))
        (sym same) (ends (subst (λ k. stop_requested k ≡ true) same f))
    where
      ends :
          stop_requested i ≡ true
          → trivial_loop stop_requested counter result (suc fuel) i ≡ some (LoopEnd.stopped i)
      ends f = ground arith
  trivial_loop-from (suc n) i last (suc fuel) e h lt f = ground (
    arith,
    h i (omega arith) (omega arith),
    trivial_loop-from n (i + 1) last fuel (omega arith) (λ j p q. h j (omega arith) q) (omega arith)
        f,
  )

-- Where in every round before `last` libusb succeeds and either no stop is requested or the counter is
-- not 0, and round `last` is the first where that fails, the loop of the reference-counted handler
-- ends there, after `last + 1` calls of libusb: it stops where libusb succeeded, and throws libusb's
-- error otherwise.
pub refcounted_loop-end :
    (stop_requested : ℕ → Bool) (counter : ℕ → ℕ) (result : ℕ → ℤ) (last fuel : ℕ)
    → ((i : ℕ) → i < last → (ok result i && goes_on stop_requested counter i) ≡ true)
    → (ok result last && goes_on stop_requested counter last) ≡ false
    → last < fuel
    → refcounted_loop stop_requested counter result fuel 0 ≡ some (end_at result last)
refcounted_loop-end stop_requested counter result last fuel h f lt =
    refcounted_loop-from stop_requested counter result last 0 last fuel (omega arith)
      (λ j _ q. h j q) lt f

-- Where libusb succeeds and no stop is requested in every round before `last`, and a stop is requested
-- when round `last` begins, the loop of the trivial handler ends after `last` calls of libusb, whatever
-- references are held.
pub trivial_loop-end :
    (stop_requested : ℕ → Bool) (counter : ℕ → ℕ) (result : ℕ → ℤ) (last fuel : ℕ)
    → ((i : ℕ) → i < last → (ok result i && not (stop_requested i)) ≡ true)
    → stop_requested last ≡ true
    → last < fuel
    → trivial_loop stop_requested counter result fuel 0 ≡ some (LoopEnd.stopped last)
trivial_loop-end stop_requested counter result last fuel h f lt =
    trivial_loop-from stop_requested counter result last 0 last fuel (omega arith) (λ j _ q. h j q)
      lt f
