-- ===== src/Transfer/Partial/Refine.antt =====
-- The awaitable of include/co_usb/transfer/detail/sequence_awaitable.hpp implements a pipe of regions.
use co_usb.Prelude.{
  ℕ, ◌≡◌, ◌≢◌, sym, subst, ◌∙◌, inl, inr, Bool, Bool-cases, List-cases, false, some, List, [], ◌++◌,
  ==_iff, get_elem?, erase_at, Distinct, Distinct-erase_at, Distinct-rejoin, arith,
}
use co_usb.Prelude.Int.{ℤ, ◌==ℤ◌}
use co_usb.Prelude.Words.{dec_size, add_size, size_of_int}
use co_usb.Libusb
use co_usb.Errors.{is_error}
use co_usb.Transfer.Status.{Status, status_value}
use co_usb.Transfer.Record.{Store, update, is_isochronous}
use co_usb.Transfer.Partial.{
  Awaitable, resume_on_zero, count_transfer, submit_again, next_buffer, check_status, count_and_go,
  transfer_callback,
}
use co_usb.Transfer.Partial.Run.{Sys, Completion, finish, deliver, Step, completes, Run, here, next}
use co_usb.Transfer.Partial.Success.{NotIso, Run-types}
use co_usb.Transfer.Pipe.{Region, Pipe, PipeStep, PipeRun, waits, goes}
use co_usb.Transfer.Pipe.Stage.{Stage, stage_pipe, Turn, went, drained, failed, lost, Turn-PipeStep}

-- The pipe that a state stands for.
abbrev pub stage_of : Sys → Stage
stage_of s = record {
  memory = s.store;
  in_air = s.flying;
  buffers = s.self.buf_current;
  error = s.self.ec;
}

abbrev pub view_pipe : Sys → Pipe
view_pipe s = stage_pipe (stage_of s)

abbrev OutTurn : Awaitable → ℕ → Awaitable × Store × Bool → Type 0
OutTurn self t out = Turn self.buf_current self.ec out.0.buf_current out.0.ec (out.1 t) out.2

next_buffer-Turn :
    (self : Awaitable) (m : Store) (t : ℕ) (r : ℤ)
    → is_error self.ec ≡ false
    → OutTurn self t (next_buffer self m t r)
unfolding next_buffer submit_again resume_on_zero
next_buffer-Turn self m t r ok = elim (List-cases self.buf_current) [
  | inl e ↦ drained ok e (ground (arith, e)) (ground (arith, e, ok)) (ground (arith, e))
  | inr (b, bs, e) ↦ elim (Bool-cases (r ==ℤ Libusb.success)) [
    | inl took ↦
        went b ok (ground (arith, e, took)) (ground (arith, e, ok, took)) (ground (arith, e, took))
          (ground (arith, e, took))
    | inr refused ↦
        lost b (ground (arith, e, refused)) (ground (arith, e, refused))
          (ground (arith, e, refused))
  ]
]

transfer_callback-Turn :
    (self : Awaitable) (m : Store) (t : ℕ) (r : ℤ)
    → is_isochronous (m t).type ≡ false
    → OutTurn self t (transfer_callback self m t r)
unfolding transfer_callback count_and_go count_transfer check_status resume_on_zero
transfer_callback-Turn self m t r k =
    let counted : Awaitable = record self {
      in_flight = dec_size self.in_flight;
      total = add_size self.total (size_of_int (m t).actual_length);
    } in
    elim (Bool-cases (is_error self.ec)) [
      | inl bad ↦ failed (ground (arith, bad)) (ground (arith, bad)) (ground (arith, bad))
      | inr ok ↦ elim (Bool-cases ((m t).status ==ℤ status_value Status.completed)) [
        | inl fine ↦
            let e' : transfer_callback self m t r ≡ next_buffer counted m t r =
              ground (arith, ok, fine, k) in
            subst (OutTurn self t) (sym e') (next_buffer-Turn counted m t r ok)
        | inr bad ↦
            failed (ground (arith, ok, bad, k)) (ground (arith, ok, bad, k))
              (ground (arith, ok, bad, k))
      ]
    ]

-- A callback writes no other transfer.
transfer_callback-other :
    (self : Awaitable) (m : Store) (t : ℕ) (r : ℤ) (p : ℕ)
    → p ≢ t
    → (transfer_callback self m t r).1 p ≡ m p
unfolding transfer_callback count_and_go check_status next_buffer submit_again
transfer_callback-other self m t r p n = ground (arith, n, ==_iff t p)

-- What a step of the system is for the pipe.
deliver-PipeStep :
    (u : Sys) (i t : ℕ) (c : Completion) (r : ℤ)
    → get_elem? u.flying i ≡ some t
    → Distinct u.flying
    → NotIso u.store
    → (more : List Region) × PipeStep (view_pipe u) (view_pipe (deliver u i t c r)) more
unfolding deliver
deliver-PipeStep u i t c r h d v =
    let m = update u.store t (finish c (u.store t)) in
    let out = transfer_callback u.self m t r in
    Turn-PipeStep (stage_of u) i t out.1 out.0.buf_current out.0.ec out.2 h d
      (λ p n. transfer_callback-other u.self m t r p n ∙ ground (arith, n, ==_iff t p))
      (transfer_callback-Turn u.self m t r (ground (arith, v t)))

deliver-Distinct :
    (u : Sys) (i t : ℕ) (c : Completion) (r : ℤ)
    → get_elem? u.flying i ≡ some t
    → Distinct u.flying
    → Distinct (deliver u i t c r).flying
unfolding deliver
deliver-Distinct u i t c r h d =
    let (other, rest) = Distinct-erase_at u.flying i d h in
    Distinct-rejoin _ (erase_at u.flying i) t other rest

Step-Distinct : {u w : Sys} {c : Completion} → Step u c w → Distinct u.flying → Distinct w.flying
Step-Distinct {u} {c = c} (completes i t r h e) d =
    subst (λ x. Distinct x.flying) (sym e) (deliver-Distinct u i t c r h d)

Step-PipeStep :
    {u w : Sys} {c : Completion}
    → Step u c w
    → Distinct u.flying
    → NotIso u.store
    → (more : List Region) × PipeStep (view_pipe u) (view_pipe w) more
Step-PipeStep {u} {c = c} (completes i t r h e) d v =
    subst (λ x. (more : List Region) × PipeStep (view_pipe u) (view_pipe x) more) (sym e)
      (deliver-PipeStep u i t c r h d v)

Run-Distinct :
    {s u : Sys} {cs : List Completion} → Distinct s.flying → Run s cs u → Distinct u.flying
Run-Distinct d here = d
Run-Distinct d (next run st) = Step-Distinct st (Run-Distinct d run)

-- Every run is a run of the pipe.
pub Run-PipeRun :
    {s u : Sys} {cs : List Completion}
    → Distinct s.flying
    → NotIso s.store
    → Run s cs u
    → (started : List Region) × PipeRun (view_pipe s) started (view_pipe u)
Run-PipeRun d v here = ([], waits)
Run-PipeRun d v (next run st) =
    let (started, ran) = Run-PipeRun d v run in
    let (more, step) = Step-PipeStep st (Run-Distinct d run) (Run-types v run) in
    (started ++ more, goes ran step)
