-- ===== src/Transfer/Complete/Accounting.antt =====
-- The byte count of include/co_usb/transfer/detail/complete_sequence_awaitable.hpp, over transfers
-- that are not isochronous.
use co_usb.Prelude.{
  ℕ, ◌+◌, ◌%◌, ◌≤◌, ◌<◌, ◌≡◌, refl, sym, subst, Bool, false, some, List, [], ◌∷◌, length, erase_at,
  length-erase_at, length-append, get_elem?-lt, Option-cases, inl, inr, arith,
}
use co_usb.Prelude.Int.{ℤ}
use co_usb.Prelude.Words.{add_size, size_of_int, size_mod}
use co_usb.Errors.{is_error}
use co_usb.Transfer.Record.{Store, update, is_isochronous, SameTypes, update-SameTypes}
use co_usb.Transfer.Partial.Run.{Completion, finish}
use co_usb.Transfer.Partial.Success.{NotIso, bytes_of}
use co_usb.Transfer.Complete.{
  Awaitable, Progress, Progresses, at, put, resume_on_zero, submit_again, next_buffer, same_buffer,
  go_on, count_and_go, transfer_callback, transfer_error, subtotal_of, sum_totals,
}
use co_usb.Transfer.Complete.Entries.{at-put, totals, totals-put}
use co_usb.Transfer.Complete.Counting.{land}
use co_usb.Transfer.Complete.Resumption.{deliver-cases}
use co_usb.Transfer.Complete.Run.{Sys, Step, completes, Run, here, next}

pub sum_totals_lem :
    (states : Progresses) (a : ℕ)
    → a < size_mod
    → sum_totals states a ≡ (a + totals states) % size_mod
unfolding sum_totals totals add_size
sum_totals_lem [] a h = omega arith
sum_totals_lem ((p, prg) ∷ states) a h =
    omega (arith, sum_totals_lem states ((a + prg.total) % size_mod) (omega arith))

totals-put_same :
    (states : Progresses) (t : ℕ) (old prg : Progress)
    → at states t ≡ some old
    → prg.total ≡ old.total
    → totals (put states t prg) ≡ totals states
totals-put_same states t old prg h e = omega (arith, totals-put states t prg old h)

next_buffer-totals :
    (self : Awaitable) (m : Store) (t : ℕ) (prg : Progress) (r : ℤ)
    → at self.states t ≡ some prg
    → totals (next_buffer self m t prg r).0.states ≡ totals self.states
unfolding next_buffer submit_again resume_on_zero
next_buffer-totals self m t prg r h = grind (arith, totals-put_same)

go_on-totals :
    (self : Awaitable) (m : Store) (t : ℕ) (prg : Progress) (b : ℕ) (r : ℤ)
    → at self.states t ≡ some prg
    → totals (go_on self m t prg b r).0.states ≡ totals self.states
unfolding go_on same_buffer submit_again resume_on_zero
go_on-totals self m t prg b r h = ground (
  arith,
  next_buffer-totals self m t prg r h,
  totals-put_same self.states t prg (record prg { ptr = add_size prg.ptr b }) h refl,
)

-- Whatever becomes of the transfer, its bytes are added to the totals, modulo the width.
count_and_go-totals :
    (self : Awaitable) (m : Store) (t : ℕ) (prg : Progress) (r : ℤ)
    → at self.states t ≡ some prg
    → totals (count_and_go self m t prg r).0.states % size_mod
      ≡ (totals self.states + subtotal_of (m t)) % size_mod
unfolding count_and_go resume_on_zero add_size
count_and_go-totals self m t prg r h =
    let counted : Progress = record prg { total = (prg.total + subtotal_of (m t)) % size_mod } in
    let states = put self.states t counted in
    ground (
      arith,
      totals-put self.states t counted prg h,
      at-put self.states t counted t,
      go_on-totals (record self { states = states }) m t counted (subtotal_of (m t)) r,
    )

-- A callback that leaves no error.
record Clean (self : Awaitable) (bytes : ℕ) (out : Awaitable) (accepted : Bool) : Type 0 where
  sound : is_error self.ec ≡ false
  total : totals out.states % size_mod ≡ (totals self.states + bytes) % size_mod
  shrinks : length out.buf_current ≤ length self.buf_current
  drained : accepted ≡ false → length out.buf_current ≡ 0

go_on-shrinks :
    (self : Awaitable) (m : Store) (t : ℕ) (prg : Progress) (b : ℕ) (r : ℤ)
    → length (go_on self m t prg b r).0.buf_current ≤ length self.buf_current
unfolding go_on next_buffer same_buffer submit_again resume_on_zero
go_on-shrinks self m t prg b r = ground arith

go_on-drained :
    (self : Awaitable) (m : Store) (t : ℕ) (prg : Progress) (b : ℕ) (r : ℤ)
    → is_error (go_on self m t prg b r).0.ec ≡ false
    → (go_on self m t prg b r).2 ≡ false
    → length (go_on self m t prg b r).0.buf_current ≡ 0
unfolding go_on next_buffer same_buffer submit_again resume_on_zero
go_on-drained self m t prg b r h k = ground arith

count_and_go-shrinks :
    (self : Awaitable) (m : Store) (t : ℕ) (prg : Progress) (r : ℤ)
    → length (count_and_go self m t prg r).0.buf_current ≤ length self.buf_current
unfolding count_and_go resume_on_zero
count_and_go-shrinks self m t prg r =
    let counted : Progress = record prg { total = add_size prg.total (subtotal_of (m t)) } in
    ground (
      arith,
      go_on-shrinks (record self { states = put self.states t counted }) m t counted
          (subtotal_of (m t)) r,
    )

count_and_go-drained :
    (self : Awaitable) (m : Store) (t : ℕ) (prg : Progress) (r : ℤ)
    → is_isochronous (m t).type ≡ false
    → is_error (count_and_go self m t prg r).0.ec ≡ false
    → (count_and_go self m t prg r).2 ≡ false
    → length (count_and_go self m t prg r).0.buf_current ≡ 0
unfolding count_and_go resume_on_zero transfer_error
count_and_go-drained self m t prg r iso h k =
    let counted : Progress = record prg { total = add_size prg.total (subtotal_of (m t)) } in
    ground (
      arith,
      go_on-drained (record self { states = put self.states t counted }) m t counted
          (subtotal_of (m t)) r,
    )

transfer_callback-Clean :
    (self : Awaitable) (m : Store) (t : ℕ) (r : ℤ) (out : Awaitable) (m' : Store) (accepted : Bool)
    → transfer_callback self m t r ≡ some (out, m', accepted)
    → is_isochronous (m t).type ≡ false
    → is_error out.ec ≡ false
    → Clean self (size_of_int (m t).actual_length) out accepted
unfolding transfer_callback resume_on_zero subtotal_of
transfer_callback-Clean self m t r out m' accepted e iso h =
    elim (Option-cases (at self.states t)) [
      | inl none_at ↦ ground arith
      | inr (prg, found) ↦ ground (
        arith,
        count_and_go-totals (land self) m t prg r found,
        count_and_go-shrinks (land self) m t prg r,
        count_and_go-drained (land self) m t prg r iso,
      )
    ]

pub transfer_callback-types :
    (self : Awaitable) (m : Store) (t : ℕ) (r : ℤ) (out : Awaitable) (m' : Store) (accepted : Bool)
    → transfer_callback self m t r ≡ some (out, m', accepted)
    → SameTypes m' m
unfolding transfer_callback count_and_go go_on next_buffer same_buffer submit_again
transfer_callback-types self m t r out m' accepted e p = ground arith

pub Step-types : {s u : Sys} {c : Completion} → Step s c u → NotIso s.store → NotIso u.store
Step-types {s} {c = c} (completes i t r h e) v p =
    let (out, m', accepted, found, eq) = deliver-cases s i t c r e in
    let m = update s.store t (finish c (s.store t)) in
    let same = transfer_callback-types s.self m t r out m' accepted found p in
    let before = update-SameTypes s.store t (finish c (s.store t)) refl p in
    subst (λ w. is_isochronous (w.store p).type ≡ false) (sym eq) (rw same (rw before (v p)))

Run-types : {s u : Sys} {cs : List Completion} → NotIso s.store → Run s cs u → NotIso u.store
Run-types v here = v
Run-types v (next run st) = Step-types st (Run-types v run)

-- A run without an error, from `s` on: its bytes are in the totals, and a transfer stopped only
-- because no buffer was left.
pub record Clear (s : Sys) (cs : List Completion) (u : Sys) : Type 0 where
  pub total : totals u.self.states % size_mod ≡ (totals s.self.states + bytes_of cs) % size_mod
  pub drained : length u.flying < length s.flying → length u.self.buf_current ≡ 0

record After (u : Sys) (bytes : ℕ) (w : Sys) : Type 0 where
  sound : is_error u.self.ec ≡ false
  total : totals w.self.states % size_mod ≡ (totals u.self.states + bytes) % size_mod
  drained : length w.flying < length u.flying → length w.self.buf_current ≡ 0
  shrinks : length w.self.buf_current ≤ length u.self.buf_current

Step-Clean :
    {u w : Sys} {c : Completion}
    → Step u c w
    → NotIso u.store
    → is_error w.self.ec ≡ false
    → After u (size_of_int c.actual_length) w
Step-Clean {u} {c = c} (completes i t r h e) v clean =
    let (out, m', accepted, found, eq) = deliver-cases u i t c r e in
    let m = update u.store t (finish c (u.store t)) in
    let same = update-SameTypes u.store t (finish c (u.store t)) refl t in
    let clear =
      transfer_callback-Clean u.self m t r out m' accepted found (rw same (v t))
        (subst (λ x. is_error x.self.ec ≡ false) eq clean) in
    let erased = length-erase_at u.flying i (get_elem?-lt u.flying i h) in
    let joined = length-append (erase_at u.flying i) (t ∷ []) in
    subst (After u (size_of_int c.actual_length)) (sym eq) (ground (arith, clear, erased, joined))

pub Run-Clear :
    {s u : Sys} {cs : List Completion}
    → NotIso s.store
    → Run s cs u
    → is_error u.self.ec ≡ false
    → Clear s cs u
unfolding bytes_of
Run-Clear v here clean = ground arith
Run-Clear {s} v (next {u = u} run st) clean =
    let step = Step-Clean st (Run-types v run) clean in
    let rest = Run-Clear v run step.sound in ground (arith, step, rest)
