-- ===== src/Transfer/Partial/Resumption.antt =====
-- When the coroutine of include/co_usb/transfer/detail/sequence_awaitable.hpp is posted, if libusb
-- took every transfer of the first loop: once, by the last callback, after at most as many callbacks
-- as there are buffers.
use co_usb.Prelude.{
  ℕ, ◌+◌, ◌≤◌, ◌<◌, ◌≡◌, sym, subst, List, [], ◌∷◌, ◌==◌, length, erase_at, length-erase_at,
  length-append, get_elem?-lt, if◌then◌else◌, arith,
}
use co_usb.Prelude.Int.{ℤ}
use co_usb.Prelude.Words.{dec_size, inc_size_lt, dec_size_pos, size_mod}
use co_usb.Transfer.Record.{update}
use co_usb.Transfer.Partial.Counting.{transfer_callback-Returned}
use co_usb.Transfer.Partial.Run.{Sys, Completion, finish, deliver, Step, completes, Run, here, next}

-- The counter is the number of transfers at libusb, and the coroutine was posted, once, if and only
-- if that is 0.
pub record IsLive (s : Sys) : Type 0 where
  pub counted : s.self.in_flight ≡ length s.flying
  pub bounded : length s.flying < size_mod
  pub posted : s.self.posted ≡ (if length s.flying == 0 then s.self.cont ∷ [] else [])

-- The callbacks that can still come.
abbrev pub work : Sys → ℕ
work s = length s.self.buf_current + length s.flying

record Delivered (s u : Sys) : Type 0 where
  live : IsLive u
  less : work u + 1 ≤ work s
  cont : u.self.cont ≡ s.self.cont

deliver-Delivered :
    (s : Sys) (i t : ℕ) (c : Completion) (r : ℤ)
    → i < length s.flying
    → IsLive s
    → Delivered s (deliver s i t c r)
unfolding deliver
deliver-Delivered s i t c r h v = ground (
  arith,
  transfer_callback-Returned s.self (update s.store t (finish c (s.store t))) t r,
  length-erase_at s.flying i,
  length-append (erase_at s.flying i) (t ∷ []),
  dec_size_pos s.self.in_flight,
  inc_size_lt (dec_size s.self.in_flight),
)

Step-Delivered : {s u : Sys} {c : Completion} → Step s c u → IsLive s → Delivered s u
Step-Delivered {s} {c = c} (completes i t r h e) v =
    subst (Delivered s) (sym e) (deliver-Delivered s i t c r (get_elem?-lt s.flying i h) v)

pub record Ran (s : Sys) (n : ℕ) (u : Sys) : Type 0 where
  pub live : IsLive u
  pub less : work u + n ≤ work s
  pub cont : u.self.cont ≡ s.self.cont

pub Run-Ran : {s u : Sys} {cs : List Completion} → IsLive s → Run s cs u → Ran s (length cs) u
Run-Ran v here = ground arith
Run-Ran v (next run st) =
    let ran = Run-Ran v run in let d = Step-Delivered st ran.live in ground (arith, ran, d)
