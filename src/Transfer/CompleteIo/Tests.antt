-- ===== src/Transfer/CompleteIo/Tests.antt =====
-- `complete_submit` of include/co_usb/transfer/complete_io.hpp with two transfers and three buffers.
use co_usb.Prelude.{
  ℕ, ◌+◌, ◌≤◌, ◌%◌, ◌≡◌, refl, true, false, some, List, [], ◌∷◌, ◌++◌, ◌==◌, length, take,
  get_elem?, is_some, All, if◌then◌else◌, arith,
}
use co_usb.Prelude.Int.{ℤ}
use co_usb.Prelude.Words.{size_mod}
use co_usb.Errors.{is_error}
use co_usb.Transfer.Partial.Run.{Completion}
use co_usb.Transfer.Partial.Success.{bytes_of}
use co_usb.Transfer.Complete.{await_resume}
use co_usb.Transfer.Complete.Run.{Sys, Run, deliver}
use co_usb.Transfer.Complete.Placement.{sizes}
use co_usb.Transfer.Complete.Safety.{Served}
use co_usb.Transfer.Complete.Ending.{Busy}
use co_usb.Transfer.CompleteIo.Ending.{complete_submit_ends}
use co_usb.Transfer.CompleteIo.Inside.{Inside, complete_submit-Inside}
use co_usb.Transfer.Pipe.{Region, PipeRun}
use co_usb.Transfer.Pipe.Stage.{waiting_regions, start_pipe}
use co_usb.Transfer.PartialIo.{transfers_used}
use co_usb.Transfer.Complete.Launch.{FullLaunch, before_loop, Alike}
use co_usb.Transfer.Complete.Refine.{Full, view_pipe}
use co_usb.Transfer.CompleteIo.Order.{complete_submit_refines}
use co_usb.Transfer.Samples.{store, two, three, taken}
use co_usb.Transfer.CompleteIo.{pending, complete_submit, stop_complete_submit}
use co_usb.Transfer.CompleteIo.Resumption.{complete_submit_resumes_once, complete_submit_success}

stopped : stop_complete_submit two three ≡ two
unfolding stop_complete_submit
stopped = refl

complete_submit_resumes_once_example :
    (s : Sys) × (complete_submit 7 two three 16 store false 9 taken ≡ pending s)
    × ((cs : List Completion) (u : Sys)
        → Run s cs u
        → (u.self.posted ≡ (if length u.flying == 0 then 9 ∷ [] else []))
          × ((i t : ℕ) (c : Completion) (r : ℤ)
              → get_elem? u.flying i ≡ some t
              → is_some (deliver u i t c r) ≡ true))
complete_submit_resumes_once_example =
    complete_submit_resumes_once 7 two three 16 store 9 taken (λ e. cc) (λ e. cc) (omega arith)
      (λ j p q. refl)

complete_submit_success_example :
    (s : Sys) × (complete_submit 7 two three 16 store false 9 taken ≡ pending s)
    × ((cs : List Completion) (u : Sys)
        → Run s cs u
        → u.flying ≡ []
        → is_error u.self.ec ≡ false
        → (length u.self.buf_current ≡ 0)
          × (await_resume u.self ≡ (u.self.ec, bytes_of cs % size_mod)))
complete_submit_success_example =
    complete_submit_success 7 two three 16 store 9 taken (λ e. cc) (λ e. cc) (λ j p q. refl)
      (λ t. refl)

complete_submit-Inside_example :
    (s : Sys) × (complete_submit 7 two three 16 store false 9 taken ≡ pending s)
    × ((u : Sys) → Served s u → All (λ t. Inside three 16 (u.store t)) u.flying)
unfolding sizes
complete_submit-Inside_example =
    complete_submit-Inside three 16 7 two store 9 taken (λ e. cc)
      ((λ e. absurd (omega (arith, e)), tt), (tt, tt))
      ((omega arith, omega arith), ((omega arith, omega arith), ((omega arith, omega arith), tt)))
      (omega arith) (λ t. refl) (λ j p q. refl)

complete_submit_ends_example :
    (s : Sys) × (complete_submit 7 two three 16 store false 9 taken ≡ pending s)
    × ((n : ℕ) (u : Sys) → Busy s n u → n + length u.flying ≤ length three + sizes three)
unfolding sizes
complete_submit_ends_example =
    complete_submit_ends three 16 7 two store 9 taken (λ e. cc)
      ((λ e. absurd (omega (arith, e)), tt), (tt, tt))
      ((omega arith, omega arith), ((omega arith, omega arith), ((omega arith, omega arith), tt)))
      (omega arith) (λ t. refl) (λ j p q. refl)

complete_submit_refines_example :
    (s : Sys) × (complete_submit 7 two three 64 store false 9 taken ≡ pending s)
    × (view_pipe s ≡ start_pipe (transfers_used two three) (waiting_regions three))
    × ((u : Sys)
        → Full s u
        → (given : List Region) × PipeRun (view_pipe s) given (view_pipe u)
          × (is_error u.self.ec ≡ false
              → take (transfers_used two three) (waiting_regions three)
                  ++ (given ++ waiting_regions u.self.buf_current)
                ≡ waiting_regions three))
    × ((u : Sys) (left : List ℕ)
        → FullLaunch (before_loop s) s.flying u left
        → (given : List Region) × (w : Sys) × PipeRun (view_pipe s) given (view_pipe w)
          × Alike u left w
          × (is_error u.self.ec ≡ false
              → take (transfers_used two three) (waiting_regions three)
                  ++ (given ++ waiting_regions u.self.buf_current)
                ≡ waiting_regions three))
unfolding sizes
complete_submit_refines_example =
    complete_submit_refines 7 two three 64 store 9 taken (λ e. cc)
      ((λ e. absurd (omega (arith, e)), tt), (tt, tt))
      ((omega arith, omega arith), ((omega arith, omega arith), ((omega arith, omega arith), tt)))
      (omega arith, (omega arith, (omega arith, tt))) (omega arith) (λ t. refl) (λ j p q. refl)
