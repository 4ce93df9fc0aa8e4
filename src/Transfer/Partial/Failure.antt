-- ===== src/Transfer/Partial/Failure.antt =====
-- The awaitable of include/co_usb/transfer/detail/sequence_awaitable.hpp once its error code is set,
-- and with more transfers counted than libusb holds.
use co_usb.Prelude.{
  ℕ, ◌+◌, ◌<◌, ◌≡◌, refl, ap, sym, subst, ◌∙◌, ◌≢◌, true, false, List, [], ◌∷◌, length,
  length-erase_at, get_elem?-lt, arith,
}
use co_usb.Prelude.Int.{ℤ, ==ℤ_iff}
use co_usb.Prelude.Words.{add_size, dec_size, dec_size_pos, size_mod}
use co_usb.Errors.{is_error}
use co_usb.Transfer.Status.{Status, status_value}
use co_usb.Transfer.Record.{Packet, TransferType, Store, update}
use co_usb.Transfer.Partial.{
  Awaitable, resume_on_zero, count_packets, count_transfer, count_and_go, transfer_callback,
}
use co_usb.Transfer.Partial.Run.{Sys, Completion, finish, deliver, Step, completes, Run, here, next}

-- A callback under an error only lowers the counter, and posts if it was the last.
pub transfer_callback_failed :
    (self : Awaitable) (m : Store) (t : ℕ) (r : ℤ)
    → is_error self.ec ≡ true
    → transfer_callback self m t r
      ≡ (resume_on_zero (record self { in_flight = dec_size self.in_flight }), m, false)
unfolding transfer_callback
transfer_callback_failed self m t r h = ground arith

pub record IsLost (s : Sys) : Type 0 where
  pub failed : is_error s.self.ec ≡ true
  pub missing : length s.flying < s.self.in_flight
  pub bounded : s.self.in_flight < size_mod
  pub silent : s.self.posted ≡ []

deliver-IsLost :
    (s : Sys) (i t : ℕ) (c : Completion) (r : ℤ)
    → i < length s.flying
    → IsLost s
    → IsLost (deliver s i t c r)
unfolding deliver resume_on_zero
deliver-IsLost s i t c r h v = ground (
  arith,
  transfer_callback_failed s.self (update s.store t (finish c (s.store t))) t r,
  length-erase_at s.flying i,
  dec_size_pos s.self.in_flight,
)

Step-IsLost : {s u : Sys} {c : Completion} → Step s c u → IsLost s → IsLost u
Step-IsLost {s} {c = c} (completes i t r h e) v =
    subst IsLost (sym e) (deliver-IsLost s i t c r (get_elem?-lt s.flying i h) v)

pub Run-IsLost : {s u : Sys} {cs : List Completion} → IsLost s → Run s cs u → IsLost u
Run-IsLost v here = v
Run-IsLost v (next run st) = Step-IsLost st (Run-IsLost v run)

-- What later callbacks leave of a failed awaitable.
pub record Drains (s : Sys) (n : ℕ) (u : Sys) : Type 0 where
  pub ec : u.self.ec ≡ s.self.ec
  pub total : u.self.total ≡ s.self.total
  pub buffers : u.self.buf_current ≡ s.self.buf_current
  pub flying : length u.flying + n ≡ length s.flying

deliver-Drains :
    (s : Sys) (i t : ℕ) (c : Completion) (r : ℤ)
    → i < length s.flying
    → is_error s.self.ec ≡ true
    → Drains s 1 (deliver s i t c r)
unfolding deliver resume_on_zero
deliver-Drains s i t c r h v = ground (
  arith,
  transfer_callback_failed s.self (update s.store t (finish c (s.store t))) t r,
  length-erase_at s.flying i,
)

Step-Drains : {s u : Sys} {c : Completion} → Step s c u → is_error s.self.ec ≡ true → Drains s 1 u
Step-Drains {s} {c = c} (completes i t r h e) v =
    subst (Drains s 1) (sym e) (deliver-Drains s i t c r (get_elem?-lt s.flying i h) v)

-- Once an error is set it stays: later callbacks count no bytes, take no buffer and submit nothing,
-- so that the transfers in flight only drain.
pub Run-Drains :
    {s u : Sys} {cs : List Completion}
    → is_error s.self.ec ≡ true
    → Run s cs u
    → Drains s (length cs) u
Run-Drains v here = ground arith
Run-Drains v (next run st) =
    let rest = Run-Drains v run in
    let step = Step-Drains st (ap (λ x. is_error x) rest.ec ∙ v) in ground (arith, rest, step)

-- An isochronous transfer that ends in any state but "completed", with "completed" as the state of
-- its first packet, sets no error: the callback counts that packet alone, and the transfer does not
-- go on though buffers may be left.
pub isochronous_failure_hidden :
    (self : Awaitable) (m : Store) (t : ℕ) (r : ℤ) (p : Packet) (ps : List Packet)
    → is_error self.ec ≡ false
    → (m t).type ≡ TransferType.isochronous
    → (m t).status ≢ status_value Status.completed
    → (m t).packets ≡ p ∷ ps
    → p.status ≡ status_value Status.completed
    → let (out, m', accepted) = transfer_callback self m t r in
      (is_error out.ec ≡ false)
      × (accepted ≡ false)
      × (out.total ≡ add_size self.total p.actual_length)
      × (out.buf_current ≡ self.buf_current)
unfolding transfer_callback count_and_go count_transfer count_packets resume_on_zero
isochronous_failure_hidden self m t r p ps clean iso bad e good =
    ground (arith, ==ℤ_iff (m t).status (status_value Status.completed))

-- With nothing at libusb there is no callback.
pub idle-Run : {s u : Sys} {cs : List Completion} → s.flying ≡ [] → Run s cs u → (cs ≡ []) × (u ≡ s)
idle-Run e here = (refl, refl)
idle-Run e (next {u = u} run (completes i t r h _)) = absurd (
    omega
      (arith, get_elem?-lt u.flying i h, ap (λ w. length w.flying) (idle-Run e run).1, ap length e))
