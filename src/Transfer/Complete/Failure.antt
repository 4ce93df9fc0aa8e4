-- ===== src/Transfer/Complete/Failure.antt =====
-- The awaitable of include/co_usb/transfer/detail/complete_sequence_awaitable.hpp once its error code is
-- set.
use co_usb.Prelude.{
  ℕ, ◌+◌, ◌≡◌, ap, subst, sym, ◌∙◌, true, false, some, List, length, length-erase_at, get_elem?,
  get_elem?-lt, arith,
}
use co_usb.Prelude.Int.{ℤ}
use co_usb.Errors.{is_error}
use co_usb.Transfer.Record.{Store, update}
use co_usb.Transfer.Partial.Run.{Completion, finish}
use co_usb.Transfer.Complete.{Awaitable, resume_on_zero, transfer_callback, await_resume}
use co_usb.Transfer.Complete.Counting.{land}
use co_usb.Transfer.Complete.Run.{Sys, deliver, Step, completes, Run, here, next}
use co_usb.Transfer.Complete.Resumption.{deliver-cases}

-- What later callbacks leave of a failed awaitable.
pub record Drains (s : Sys) (n : ℕ) (u : Sys) : Type 0 where
  pub result : await_resume u.self ≡ await_resume s.self
  pub buffers : u.self.buf_current ≡ s.self.buf_current
  pub flying : length u.flying + n ≡ length s.flying

transfer_callback_failed :
    (self : Awaitable) (m : Store) (t : ℕ) (r : ℤ)
    → is_error self.ec ≡ true
    → transfer_callback self m t r ≡ some (resume_on_zero (land self), m, false)
unfolding transfer_callback
transfer_callback_failed self m t r h = ground arith

deliver-Drains :
    (s u : Sys) (i t : ℕ) (c : Completion) (r : ℤ)
    → deliver s i t c r ≡ some u
    → get_elem? s.flying i ≡ some t
    → is_error s.self.ec ≡ true
    → Drains s 1 u
unfolding resume_on_zero await_resume
deliver-Drains s u i t c r e h v =
    let (out, m', accepted, found, eq) = deliver-cases s i t c r e in
    let failed = transfer_callback_failed s.self (update s.store t (finish c (s.store t))) t r v in
    let erased = length-erase_at s.flying i (get_elem?-lt s.flying i h) in
    subst (Drains s 1) (sym eq) (ground (arith, failed, found, erased))

Step-Drains : {s u : Sys} {c : Completion} → Step s c u → is_error s.self.ec ≡ true → Drains s 1 u
Step-Drains {s} {u} {c} (completes i t r h e) v = deliver-Drains s u i t c r e h v

-- Once an error is set the result of the operation stays, the error as well as the number of bytes,
-- whatever later callbacks report: they take no buffer and submit nothing, so that the transfers in
-- flight only drain.
pub Run-await_resume :
    {s u : Sys} {cs : List Completion}
    → is_error s.self.ec ≡ true
    → Run s cs u
    → Drains s (length cs) u
unfolding await_resume
Run-await_resume v here = ground arith
Run-await_resume v (next run st) =
    let rest = Run-await_resume v run in
    let step = Step-Drains st (ap (λ x. is_error x.0) rest.result ∙ v) in
    record {
      result = step.result ∙ rest.result;
      buffers = step.buffers ∙ rest.buffers;
      flying = omega (arith, step.flying, rest.flying);
    }
