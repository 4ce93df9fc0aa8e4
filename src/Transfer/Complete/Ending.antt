-- ===== src/Transfer/Complete/Ending.antt =====
-- How many callbacks an operation of include/co_usb/transfer/detail/complete_sequence_awaitable.hpp can
-- have, where each completion has moved bytes.
use co_usb.Prelude.{
  ℕ, zero, suc, ◌+◌, ◌-◌, ◌≤◌, ◌<◌, ◌≡◌, ◌≢◌, refl, sym, ap, subst, inl, inr, Bool, Bool-cases,
  false, Option-cases, List-cases, none, some, List, [], ◌∷◌, ◌++◌, length, length-append,
  length-erase_at, get_elem?, get_elem?-lt, erase_at, All, All-get, Distinct-erase_at, leb,
  if◌then◌else◌, arith,
}
use co_usb.Prelude.Int.{ℤ}
use co_usb.Prelude.Words.{size_mod, add_size, add_size_lt, size_of_int_lt}
use co_usb.Errors.{is_error}
use co_usb.Transfer.Record.{Buffer, Store, update, is_isochronous}
use co_usb.Transfer.Partial.Run.{Completion, finish}
use co_usb.Transfer.Complete.{
  Awaitable, Progress, Progresses, at, put, resume_on_zero, submit_again, next_buffer, same_buffer,
  go_on, count_and_go, transfer_callback, transfer_error, subtotal_of,
}
use co_usb.Transfer.Complete.Counting.{land}
use co_usb.Transfer.Complete.Entries.{at-put}
use co_usb.Transfer.Complete.Placement.{sizes, Placed, Safe}
use co_usb.Transfer.Complete.Frame.{count_and_go-fine, transfer_callback-Framed}
use co_usb.Transfer.Complete.Resumption.{deliver-cases}
use co_usb.Transfer.Complete.Safety.{Placed-less, IsSafe, serve-IsSafe}
use co_usb.Transfer.Complete.Run.{Sys, deliver}

-- Runs by the number of their callbacks, where each completion has moved at least one byte and no more
-- than the transfer was submitted for.
pub data Busy (s : Sys) : ℕ → Sys → Type 0 where
  rests : Busy s 0 s
  moves :
      {n : ℕ} {u w : Sys} (i t : ℕ) (c : Completion) (r : ℤ)
      → Busy s n u
      → get_elem? u.flying i ≡ some t
      → 0 < c.actual_length
      → c.actual_length ≤ (u.store t).length
      → deliver u i t c r ≡ some w
      → Busy s (suc n) w

-- What the buffer of a transfer still expects, as the code counts it.
unfoldable pub left_of : Progresses → ℕ → ℕ
left_of states t = elim (at states t) [ none ↦ 0 | some prg ↦ prg.expected - prg.total ]

unfoldable pub sum_left : Progresses → List ℕ → ℕ
unfolding left_of
sum_left states [] = 0
sum_left states (t ∷ ts) = left_of states t + sum_left states ts

-- An upper bound of the callbacks to come.
unfoldable pub ahead : Sys → ℕ
unfolding sum_left sizes
ahead s =
    sum_left s.self.states s.flying
    + length s.flying
    + sizes s.self.buf_current
    + length s.self.buf_current

sum_left-append :
    (states : Progresses) (ts us : List ℕ)
    → sum_left states (ts ++ us) ≡ sum_left states ts + sum_left states us
unfolding sum_left
sum_left-append states [] us = omega arith
sum_left-append states (t ∷ ts) us = omega (arith, sum_left-append states ts us)

sum_left-erase_at :
    (states : Progresses) (ts : List ℕ) (i : ℕ) {t : ℕ}
    → get_elem? ts i ≡ some t
    → sum_left states (erase_at ts i) + left_of states t ≡ sum_left states ts
unfolding sum_left
sum_left-erase_at states [] i e = absurd (cc)
sum_left-erase_at states (p ∷ ts) zero e = ground (arith, e)
sum_left-erase_at states (p ∷ ts) (suc i) e = omega (arith, sum_left-erase_at states ts i e)

sum_left-other :
    (states states' : Progresses) (t : ℕ) (ts : List ℕ)
    → ((p : ℕ) → p ≢ t → at states' p ≡ at states p)
    → All (λ p. p ≢ t) ts
    → sum_left states' ts ≡ sum_left states ts
unfolding sum_left left_of
sum_left-other states states' t [] other h = refl
sum_left-other states states' t (p ∷ ts) other h =
    ground (arith, other p h.0, sum_left-other states states' t ts other h.1)

-- What a callback that returned `out` leaves to come, with the transfer `t` that is expected to bring
-- `left` bytes before it.
abbrev Shrinks : ℕ → ℕ → Awaitable → Awaitable × Store × Bool → Type 0
Shrinks t left self out =
    (if out.2 then left_of out.0.states t + 1 else 0)
      + sizes out.0.buf_current
      + length out.0.buf_current
    ≤ left + sizes self.buf_current + length self.buf_current

go_on-Shrinks :
    (self : Awaitable) (m : Store) (t : ℕ) (prg : Progress) (bytes left : ℕ) (r : ℤ)
    → (prg.total < prg.expected → prg.expected - prg.total < left)
    → Shrinks t left self (go_on self m t prg bytes r)
unfolding go_on next_buffer same_buffer submit_again resume_on_zero sizes left_of
go_on-Shrinks self m t prg bytes left r h = elim (Bool-cases (leb prg.expected prg.total)) [
  | inl e ↦ elim (List-cases self.buf_current) [
    | inl none_left ↦ ground (arith, e, none_left)
    | inr (b, bs, some_left) ↦
        let taken : Progress = record prg { ptr = b.data_ptr; expected = b.size } in
        ground (arith, e, some_left, at-put self.states t taken t)
  ]
  | inr e ↦
      let on : Progress = record prg { ptr = add_size prg.ptr bytes } in
      ground (arith, e, h, at-put self.states t on t)
]

count_and_go-Shrinks :
    (buffers : List Buffer) (limit : ℕ) (self : Awaitable) (m : Store) (t : ℕ) (prg : Progress)
    (r : ℤ)
    → sizes buffers < size_mod
    → is_isochronous (m t).type ≡ false
    → 0 < (m t).actual_length
    → (m t).actual_length ≤ (m t).length
    → Placed buffers limit (sizes self.buf_current) (m t) prg
    → Shrinks t (prg.expected - prg.total) self (count_and_go self m t prg r)
unfolding subtotal_of count_and_go resume_on_zero
count_and_go-Shrinks buffers limit self m t prg r all iso more fits p =
    elim (Option-cases (transfer_error (m t))) [
      | inr (e, bad) ↦ ground (arith, bad)
      | inl ok ↦
          let bytes : subtotal_of (m t) ≡ (m t).actual_length =
            ground (arith, iso, p, p.good, size_of_int_lt (m t).actual_length) in
          let total : add_size prg.total (subtotal_of (m t)) ≡ prg.total + (m t).actual_length =
            rw bytes (add_size_lt prg.total (m t).actual_length (omega (arith, p))) in
          let counted : Progress = record prg { total = add_size prg.total (subtotal_of (m t)) } in
          let self' : Awaitable = record self { states = put self.states t counted } in
          let rest =
            go_on-Shrinks self' m t counted (subtotal_of (m t)) (prg.expected - prg.total) r
              (λ lt. omega (arith, total, more, lt)) in
          subst (Shrinks t (prg.expected - prg.total) self)
            (sym (count_and_go-fine buffers limit self m t prg r ok)) rest
    ]

transfer_callback-Shrinks :
    (buffers : List Buffer) (limit : ℕ) (self : Awaitable) (m : Store) (t : ℕ) (prg : Progress)
    (r : ℤ) (out : Awaitable × Store × Bool)
    → transfer_callback self m t r ≡ some out
    → at self.states t ≡ some prg
    → sizes buffers < size_mod
    → is_isochronous (m t).type ≡ false
    → 0 < (m t).actual_length
    → (m t).actual_length ≤ (m t).length
    → Placed buffers limit (sizes self.buf_current) (m t) prg
    → Shrinks t (left_of self.states t) self out
unfolding transfer_callback resume_on_zero left_of
transfer_callback-Shrinks buffers limit self m t prg r out e found all iso more fits p =
    elim (Bool-cases (is_error self.ec)) [
      | inl bad ↦
          let ended : (resume_on_zero (land self), m, false) ≡ out = ground (arith, bad, e) in
          subst (Shrinks t (left_of self.states t) self) ended (ground arith)
      | inr sound ↦
          let went : count_and_go (land self) m t prg r ≡ out = ground (arith, sound, found, e) in
          let rest = count_and_go-Shrinks buffers limit (land self) m t prg r all iso more fits p in
          subst (Shrinks t (left_of self.states t) self) went (ground (arith, rest, found))
    ]

deliver-ahead :
    (buffers : List Buffer) (limit : ℕ) (u : Sys) (i t : ℕ) (c : Completion) (r : ℤ) {w : Sys}
    → sizes buffers < size_mod
    → get_elem? u.flying i ≡ some t
    → 0 < c.actual_length
    → c.actual_length ≤ (u.store t).length
    → deliver u i t c r ≡ some w
    → IsSafe buffers limit u
    → ahead w < ahead u
unfolding ahead sum_left
deliver-ahead buffers limit u i t c r {w} all h more fits e v =
    let (out, m', accepted, found, eq) = deliver-cases u i t c r e in
    let m = update u.store t (finish c (u.store t)) in
    let (prg, entry, placed) =
      All-get (Safe buffers limit (sizes u.self.buf_current) u.store u.self.states) u.flying i
        v.safe h in
    let same : m t ≡ finish c (u.store t) = ground arith in
    let shrinks =
      transfer_callback-Shrinks buffers limit u.self m t prg r (out, m', accepted) found entry all
        (rw same (v.types t)) (rw same more) (rw same fits)
        (Placed-less buffers limit _ _ (omega arith) (ap (λ x. x.buffer) same)
          (ap (λ x. x.length) same) placed) in
    let frame = transfer_callback-Framed buffers limit u.self m t r _ found v.good in
    let (other, _) = Distinct-erase_at u.flying i v.distinct h in
    let kept = sum_left-other u.self.states out.states t (erase_at u.flying i) frame.entry other in
    let erased = sum_left-erase_at u.self.states u.flying i h in
    let shorter = length-erase_at u.flying i (get_elem?-lt u.flying i h) in
    subst (λ x. ahead x < ahead u) (sym eq)
      (ground (
        arith,
        shrinks,
        kept,
        erased,
        shorter,
        sum_left-append out.states (erase_at u.flying i) (t ∷ []),
        length-append (erase_at u.flying i) (t ∷ []),
      ))

pub Busy-ahead :
    (buffers : List Buffer) (limit : ℕ) {s u : Sys} {n : ℕ}
    → sizes buffers < size_mod
    → IsSafe buffers limit s
    → Busy s n u
    → IsSafe buffers limit u × (n + ahead u ≤ ahead s)
Busy-ahead buffers limit all v rests = (v, omega arith)
Busy-ahead buffers limit all v (moves {u = u} i t c r run h more fits e) =
    let (safe, le) = Busy-ahead buffers limit all v run in
    (
      serve-IsSafe buffers limit u i t c r all h fits e safe,
      omega (arith, le, deliver-ahead buffers limit u i t c r all h more fits e safe),
    )
