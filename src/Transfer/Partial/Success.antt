-- ===== src/Transfer/Partial/Success.antt =====
-- Runs of the awaitable of include/co_usb/transfer/detail/sequence_awaitable.hpp that end without an
-- error, over transfers that are not isochronous.
use co_usb.Prelude.{
  ℕ, ◌+◌, ◌%◌, ◌<◌, ◌≡◌, refl, sym, subst, Bool, false, List, [], ◌∷◌, length, erase_at,
  length-erase_at, length-append, get_elem?-lt, if◌then◌else◌, arith,
}
use co_usb.Prelude.Int.{ℤ}
use co_usb.Prelude.Words.{add_size, dec_size, size_of_int, size_mod}
use co_usb.Errors.{is_error}
use co_usb.Transfer.Record.{Store, update, is_isochronous}
use co_usb.Transfer.Partial.{
  Awaitable, resume_on_zero, count_transfer, submit_again, next_buffer, check_status, count_and_go,
  transfer_callback,
}
use co_usb.Transfer.Partial.Run.{Sys, Completion, finish, deliver, Step, completes, Run, here, next}
use co_usb.Transfer.Partial.Resumption.{work}
use co_usb.Transfer.Record.{SameTypes, update-SameTypes}

-- A callback that leaves no error: it counts the bytes of its transfer, and unless the buffers have
-- run out it takes the next and the transfer goes on.
pub record Clean (self : Awaitable) (bytes : ℕ) (out : Awaitable) (accepted : Bool) : Type 0 where
  pub sound : is_error self.ec ≡ false
  pub total : out.total ≡ add_size self.total bytes
  pub took : length out.buf_current + (if accepted then 1 else 0) ≡ length self.buf_current
  pub drained : accepted ≡ false → out.buf_current ≡ []

-- The same for a later part of the callback, where the bytes are counted.
record CleanRest (self out : Awaitable) (accepted : Bool) : Type 0 where
  sound : is_error self.ec ≡ false
  total : out.total ≡ self.total
  took : length out.buf_current + (if accepted then 1 else 0) ≡ length self.buf_current
  drained : accepted ≡ false → out.buf_current ≡ []

next_buffer-Clean :
    (self : Awaitable) (m : Store) (t : ℕ) (r : ℤ)
    → is_error (next_buffer self m t r).0.ec ≡ false
    → CleanRest self (next_buffer self m t r).0 (next_buffer self m t r).2
unfolding next_buffer submit_again resume_on_zero
next_buffer-Clean self m t r h = ground arith

check_status-Clean :
    (self : Awaitable) (m : Store) (t : ℕ) (r : ℤ)
    → is_error (check_status self m t r).0.ec ≡ false
    → CleanRest self (check_status self m t r).0 (check_status self m t r).2
unfolding check_status resume_on_zero
check_status-Clean self m t r h = ground (arith, next_buffer-Clean self m t r)

count_and_go-Clean :
    (self : Awaitable) (m : Store) (t : ℕ) (r : ℤ)
    → is_isochronous (m t).type ≡ false
    → is_error (count_and_go self m t r).0.ec ≡ false
    → Clean self
        (size_of_int (m t).actual_length)
        (count_and_go self m t r).0
        (count_and_go self m t r).2
unfolding count_and_go count_transfer
count_and_go-Clean self m t r k h =
    let counted : Awaitable = record self {
      total = add_size self.total (size_of_int (m t).actual_length);
    } in
    ground (arith, check_status-Clean counted m t r)

transfer_callback-Clean :
    (self : Awaitable) (m : Store) (t : ℕ) (r : ℤ)
    → is_isochronous (m t).type ≡ false
    → is_error (transfer_callback self m t r).0.ec ≡ false
    → Clean self
        (size_of_int (m t).actual_length)
        (transfer_callback self m t r).0
        (transfer_callback self m t r).2
unfolding transfer_callback resume_on_zero
transfer_callback-Clean self m t r k h =
    ground (arith, count_and_go-Clean (record self { in_flight = dec_size self.in_flight }) m t r)

transfer_callback-types :
    (self : Awaitable) (m : Store) (t : ℕ) (r : ℤ) → SameTypes (transfer_callback self m t r).1 m
unfolding transfer_callback count_and_go check_status next_buffer submit_again
transfer_callback-types self m t r p = ground arith

-- The bytes of a run, as each completion reports them.
unfoldable pub bytes_of : List Completion → ℕ
bytes_of [] = 0
bytes_of (c ∷ cs) = bytes_of cs + size_of_int c.actual_length

-- A run without an error, from `s` on.
pub record Clear (s : Sys) (cs : List Completion) (u : Sys) : Type 0 where
  pub exact : work u + length cs ≡ work s
  pub total : u.self.total ≡ (s.self.total + bytes_of cs) % size_mod
  pub drained : length u.flying < length s.flying → length u.self.buf_current ≡ 0

abbrev pub NotIso : Store → Type 0
NotIso m = (t : ℕ) → is_isochronous (m t).type ≡ false

deliver-types :
    (s : Sys) (i t : ℕ) (c : Completion) (r : ℤ) → NotIso s.store → NotIso (deliver s i t c r).store
unfolding deliver
deliver-types s i t c r v p =
    let m = update s.store t (finish c (s.store t)) in
    rw (transfer_callback-types s.self m t r p)
      (rw (update-SameTypes s.store t (finish c (s.store t)) refl p) (v p))

Step-types : {s u : Sys} {c : Completion} → Step s c u → NotIso s.store → NotIso u.store
Step-types {s} {c = c} (completes i t r h e) v =
    subst (λ w. NotIso w.store) (sym e) (deliver-types s i t c r v)

pub Run-types : {s u : Sys} {cs : List Completion} → NotIso s.store → Run s cs u → NotIso u.store
Run-types v here = v
Run-types v (next run st) = Step-types st (Run-types v run)

deliver-Clean :
    (u : Sys) (i t : ℕ) (c : Completion) (r : ℤ)
    → i < length u.flying
    → NotIso u.store
    → is_error (deliver u i t c r).self.ec ≡ false
    → (is_error u.self.ec ≡ false) × (Clear u (c ∷ []) (deliver u i t c r))
unfolding deliver bytes_of add_size
deliver-Clean u i t c r lt v h = ground (
  arith,
  v t,
  transfer_callback-Clean u.self (update u.store t (finish c (u.store t))) t r,
  length-erase_at u.flying i,
  length-append (erase_at u.flying i) (t ∷ []),
)

Step-Clean :
    {u w : Sys} {c : Completion}
    → Step u c w
    → NotIso u.store
    → is_error w.self.ec ≡ false
    → (is_error u.self.ec ≡ false) × Clear u (c ∷ []) w
Step-Clean {u} {c = c} (completes i t r h e) v clean =
    subst (λ x. (is_error u.self.ec ≡ false) × Clear u (c ∷ []) x) (sym e)
      (deliver-Clean u i t c r (get_elem?-lt u.flying i h) v
        (subst (λ x. is_error x.self.ec ≡ false) e clean))

pub Run-Clear :
    {s u : Sys} {cs : List Completion}
    → s.self.total < size_mod
    → NotIso s.store
    → Run s cs u
    → is_error u.self.ec ≡ false
    → Clear s cs u
unfolding bytes_of
Run-Clear {s} lt v here clean = ground arith
Run-Clear {s} lt v (next {u = u} run st) clean =
    let (sound, step) = Step-Clean st (Run-types v run) clean in
    let rest = Run-Clear lt v run sound in ground (arith, step, rest)
