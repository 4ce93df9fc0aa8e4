-- ===== src/Transfer/PartialIo/Tests.antt =====
-- `submit` of include/co_usb/transfer/partial_io.hpp with two transfers and three buffers.
use co_usb.Prelude.{
  ℕ, ◌+◌, ◌%◌, ◌≤◌, ◌≡◌, refl, false, List, [], ◌∷◌, ◌==◌, length, take, ◌++◌, if◌then◌else◌, arith,
}
use co_usb.Prelude.Int.{ℤ, negsuc}
use co_usb.Prelude.Words.{size_mod}
use co_usb.Libusb
use co_usb.Errors.{is_error}
use co_usb.Transfer.Status.{make_transfer_status}
use co_usb.Transfer.Partial.{await_resume}
use co_usb.Transfer.Partial.Launch.{Launch, before_loop, Alike}
use co_usb.Transfer.Partial.Run.{Sys, Completion, Run}
use co_usb.Transfer.Partial.Success.{bytes_of}
use co_usb.Transfer.Pipe.{Region, PipeRun}
use co_usb.Transfer.Pipe.Stage.{waiting_regions, start_pipe}
use co_usb.Transfer.Partial.Refine.{view_pipe}
use co_usb.Transfer.PartialIo.Order.{submit_refines}
use co_usb.Transfer.Samples.{store, two, three, taken}
use co_usb.Transfer.PartialIo.{pending, submit, stop_submit}
use co_usb.Transfer.PartialIo.Resumption.{submit_resumes_once, submit_success, submit_refused_hangs}

-- The second submission fails with LIBUSB_ERROR_NO_DEVICE.
abbrev second_refused : ℕ → ℤ
second_refused i = if i == 1 then negsuc 3 else Libusb.success

stopped : stop_submit two three ≡ two
unfolding stop_submit
stopped = refl

submit_resumes_once_example :
    (s : Sys) × (submit 7 two three store false 9 taken ≡ pending s)
    × ((cs : List Completion) (u : Sys)
        → Run s cs u
        → (length u.flying + length cs ≤ length three)
          × (u.self.posted ≡ (if length u.flying == 0 then 9 ∷ [] else [])))
submit_resumes_once_example =
    submit_resumes_once 7 two three store 9 taken (λ e. cc) (λ e. cc) (omega arith) (λ j p q. refl)

submit_success_example :
    (s : Sys) × (submit 7 two three store false 9 taken ≡ pending s)
    × ((cs : List Completion) (u : Sys)
        → Run s cs u
        → u.flying ≡ []
        → is_error u.self.ec ≡ false
        → (length u.self.buf_current ≡ 0)
          × (length cs ≡ length three)
          × (await_resume u.self ≡ (u.self.ec, bytes_of cs % size_mod)))
submit_success_example =
    submit_success 7 two three store 9 taken (λ e. cc) (λ e. cc) (omega arith) (λ j p q. refl)
      (λ t. refl)

submit_refused_hangs_example :
    (s : Sys) × (submit 7 two three store false 9 second_refused ≡ pending s)
    × (s.self.ec ≡ make_transfer_status (negsuc 3))
    × ((cs : List Completion) (u : Sys) → Run s cs u → u.self.posted ≡ [])
submit_refused_hangs_example =
    submit_refused_hangs 7 two three store 9 second_refused 1 (omega arith) (omega arith)
      (λ j p q. ground arith) (λ e. cc)

submit_refines_example :
    (s : Sys) × (submit 7 two three store false 9 taken ≡ pending s)
    × (view_pipe s ≡ start_pipe 2 (waiting_regions three))
    × ((cs : List Completion) (u : Sys)
        → Run s cs u
        → (given : List Region) × PipeRun (view_pipe s) given (view_pipe u)
          × (is_error u.self.ec ≡ false
              → take 2 (waiting_regions three) ++ (given ++ waiting_regions u.self.buf_current)
                ≡ waiting_regions three))
    × ((cs : List Completion) (u : Sys) (rest : List ℕ)
        → Launch (before_loop s) s.flying cs u rest
        → (given : List Region) × (w : Sys) × PipeRun (view_pipe s) given (view_pipe w)
          × Alike u rest w
          × (is_error u.self.ec ≡ false
              → take 2 (waiting_regions three) ++ (given ++ waiting_regions u.self.buf_current)
                ≡ waiting_regions three))
submit_refines_example =
    submit_refines 7 two three store 9 taken (λ e. cc)
      ((λ e. absurd (omega (arith, e)), tt), (tt, tt)) (λ t. refl) (λ j p q. refl)
