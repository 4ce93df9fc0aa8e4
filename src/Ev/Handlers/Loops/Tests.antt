-- ===== src/Ev/Handlers/Loops/Tests.antt =====
-- A stop in round 2, and a reference that is given up in round 3.
use co_usb.Prelude.{ℕ, ◌≡◌, refl, Bool, some, ltb, if◌then◌else◌, arith}
use co_usb.Prelude.Int.{ℤ, pos}
use co_usb.Ev.Handlers.{LoopEnd, refcounted_loop}
use co_usb.Ev.Handlers.Loops.{refcounted_loop-end}

abbrev stops : ℕ → Bool
stops i = ltb 1 i

abbrev held : ℕ → ℕ
held i = if ltb i 3 then 1 else 0

abbrev fine : ℕ → ℤ
fine _ = pos 0

refcounted_loop-end_example : refcounted_loop stops held fine 10 0 ≡ some (LoopEnd.stopped 4)
refcounted_loop-end_example =
    refcounted_loop-end stops held fine 3 10 (λ i h. ground arith) refl (omega arith)
