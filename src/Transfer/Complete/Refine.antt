-- ===== src/Transfer/Complete/Refine.antt =====
-- Where every buffer fits into one transfer and every completion is full, the awaitable of
-- include/co_usb/transfer/detail/complete_sequence_awaitable.hpp implements a pipe of regions too.
use co_usb.Prelude.{
  ℕ, ◌+◌, ◌≤◌, ◌<◌, ◌≡◌, ◌≢◌, refl, sym, ap, subst, ◌∙◌, inl, inr, min, Bool, Bool-cases, true,
  false, List-cases, some, List, [], ◌∷◌, ◌++◌, get_elem?, erase_at, All, All-get, All-both,
  All-erase_at, All-snoc, Distinct-erase_at, ==_iff, leb, if◌then◌else◌, arith,
}
use co_usb.Prelude.Int.{ℤ, ◌==ℤ◌}
use co_usb.Prelude.Words.{
  size_mod, add_size, add_size_lt, size_of_int_lt, int_of_size, int_of_size_lt,
}
use co_usb.Libusb
use co_usb.Errors.{is_error}
use co_usb.Transfer.Status.{Status, status_value}
use co_usb.Transfer.Record.{Buffer, Store, update, is_isochronous}
use co_usb.Transfer.Pipe.{Region, Pipe, PipeStep, PipeRun, waits, goes}
use co_usb.Transfer.Pipe.Stage.{Stage, stage_pipe, Turn, went, drained, failed, lost, Turn-PipeStep}
use co_usb.Transfer.Partial.Run.{Completion, finish}
use co_usb.Transfer.Complete.{
  Awaitable, Progress, Progresses, at, put, resume_on_zero, submit_again, next_buffer, go_on,
  count_and_go, transfer_callback, transfer_error, subtotal_of,
}
use co_usb.Transfer.Complete.Counting.{land}
use co_usb.Transfer.Complete.Entries.{at-put}
use co_usb.Transfer.Complete.Placement.{sizes, Good, Placed, Safe}
use co_usb.Transfer.Complete.Frame.{count_and_go-fine, transfer_callback-Framed}
use co_usb.Transfer.Complete.Resumption.{deliver-cases}
use co_usb.Transfer.Complete.Safety.{Placed-less, IsSafe, serve-IsSafe}
use co_usb.Transfer.Complete.Run.{Sys, deliver}

-- Runs where every completion has moved all bytes that it was submitted for.
pub data Full (s : Sys) : Sys → Type 0 where
  rests : Full s s
  fills :
      {u w : Sys} (i t : ℕ) (c : Completion) (r : ℤ)
      → Full s u
      → get_elem? u.flying i ≡ some t
      → c.actual_length ≡ (u.store t).length
      → deliver u i t c r ≡ some w
      → Full s w

abbrev pub stage_of : Sys → Stage
stage_of s = record {
  memory = s.store;
  in_air = s.flying;
  buffers = s.self.buf_current;
  error = s.self.ec;
}

abbrev pub view_pipe : Sys → Pipe
view_pipe s = stage_pipe (stage_of s)

-- The transfer was submitted for the whole of its buffer.
abbrev pub Whole : Store → Progresses → ℕ → Type 0
Whole m states t = (prg : Progress) × (at states t ≡ some prg) × (prg.expected ≡ (m t).length)

abbrev pub Fits : ℕ → Buffer → Type 0
Fits limit b = b.size ≤ limit

-- What a callback did, where it goes on with the next buffer.
record Taken (limit : ℕ) (self : Awaitable) (t : ℕ) (out : Awaitable × Store × Bool) : Type 0 where
  turn : Turn self.buf_current self.ec out.0.buf_current out.0.ec (out.1 t) out.2
  whole : out.2 ≡ true → Whole out.1 out.0.states t
  fits : All (Fits limit) out.0.buf_current

next_buffer-Taken :
    (buffers : List Buffer) (limit : ℕ) (self : Awaitable) (m : Store) (t : ℕ) (prg : Progress)
    (r : ℤ)
    → is_error self.ec ≡ false
    → self.single_transfer_limit ≡ limit
    → All (Good buffers limit) self.buf_current
    → All (Fits limit) self.buf_current
    → Taken limit self t (next_buffer self m t prg r)
unfolding next_buffer submit_again resume_on_zero
next_buffer-Taken buffers limit self m t prg r ok l g f = elim (List-cases self.buf_current) [
  | inl e ↦ record {
    turn = drained ok e (ground (arith, e)) (ground (arith, e, ok)) (ground (arith, e));
    whole = λ acc. absurd (ground (arith, e, acc));
    fits = ground (arith, e);
  }
  | inr (b, bs, e) ↦
      let good : Good buffers limit b = (subst (λ k. All (Good buffers limit) k) e g).0 in
      let (small, rest) = subst (λ k. All (Fits limit) k) e f in
      let cut : int_of_size (min b.size limit) ≡ int_of_size b.size =
        ap int_of_size (omega (arith, small)) in
      let taken : Progress = record prg { ptr = b.data_ptr; expected = b.size } in
      elim (Bool-cases (r ==ℤ Libusb.success)) [
        | inl took ↦ record {
          turn =
              went b ok (ground (arith, e, took)) (ground (arith, e, ok, took))
                (ground (arith, e, took, l, cut)) (ground (arith, e, took));
          whole = λ acc. (
            taken,
            ground (arith, e, took, at-put self.states t taken t),
            ground (arith, e, took, l, cut, good, small, int_of_size_lt b.size),
          );
          fits = ground (arith, e, took, rest);
        }
        | inr refused ↦ record {
          turn =
              lost b (ground (arith, e, refused)) (ground (arith, e, refused))
                (ground (arith, e, refused));
          whole = λ acc. absurd (ground (arith, e, refused, acc));
          fits = ground (arith, e, refused, rest);
        }
      ]
]

go_on-full :
    (self : Awaitable) (m : Store) (t : ℕ) (prg : Progress) (bytes : ℕ) (r : ℤ)
    → leb prg.expected prg.total ≡ true
    → go_on self m t prg bytes r ≡ next_buffer self m t prg r
unfolding go_on
go_on-full self m t prg bytes r full = ground (arith, full)

count_and_go-Taken :
    (buffers : List Buffer) (limit : ℕ) (self : Awaitable) (m : Store) (t : ℕ) (prg : Progress)
    (r : ℤ)
    → is_error self.ec ≡ false
    → self.single_transfer_limit ≡ limit
    → sizes buffers < size_mod
    → All (Good buffers limit) self.buf_current
    → All (Fits limit) self.buf_current
    → is_isochronous (m t).type ≡ false
    → (m t).actual_length ≡ (m t).length
    → prg.expected ≡ (m t).length
    → Placed buffers limit (sizes self.buf_current) (m t) prg
    → Taken limit self t (count_and_go self m t prg r)
unfolding count_and_go resume_on_zero subtotal_of transfer_error
count_and_go-Taken buffers limit self m t prg r ok l all g f iso full expects p =
    elim (Bool-cases ((m t).status ==ℤ status_value Status.completed)) [
      | inl fine ↦
          let bytes : subtotal_of (m t) ≡ (m t).length =
            ground (arith, iso, full, p, p.good, size_of_int_lt (m t).actual_length) in
          let total : add_size prg.total (subtotal_of (m t)) ≡ prg.total + (m t).length =
            rw bytes (add_size_lt prg.total (m t).length (omega (arith, p))) in
          let counted : Progress = record prg { total = add_size prg.total (subtotal_of (m t)) } in
          let self' : Awaitable = record self { states = put self.states t counted } in
          let reached : leb prg.expected counted.total ≡ true = ground (arith, total, expects) in
          let e' : count_and_go self m t prg r ≡ next_buffer self' m t counted r =
            count_and_go-fine buffers limit self m t prg r (ground (arith, iso, fine))
            ∙ go_on-full self' m t counted (subtotal_of (m t)) r reached in
          let rest = next_buffer-Taken buffers limit self' m t counted r ok l g f in
          subst (Taken limit self t) (sym e')
            (record { turn = rest.turn; whole = rest.whole; fits = rest.fits })
      | inr bad ↦ record {
        turn =
            failed (ground (arith, iso, bad)) (ground (arith, iso, bad)) (ground (arith, iso, bad));
        whole = λ acc. absurd (ground (arith, iso, bad, acc));
        fits = ground (arith, iso, bad, f);
      }
    ]

transfer_callback-Taken :
    (buffers : List Buffer) (limit : ℕ) (self : Awaitable) (m : Store) (t : ℕ) (prg : Progress)
    (r : ℤ) (out : Awaitable × Store × Bool)
    → transfer_callback self m t r ≡ some out
    → at self.states t ≡ some prg
    → self.single_transfer_limit ≡ limit
    → sizes buffers < size_mod
    → All (Good buffers limit) self.buf_current
    → All (Fits limit) self.buf_current
    → is_isochronous (m t).type ≡ false
    → (m t).actual_length ≡ (m t).length
    → prg.expected ≡ (m t).length
    → Placed buffers limit (sizes self.buf_current) (m t) prg
    → Taken limit self t out
unfolding transfer_callback resume_on_zero
transfer_callback-Taken buffers limit self m t prg r out e found l all g f iso full expects p =
    elim (Bool-cases (is_error self.ec)) [
      | inl bad ↦
          let ended : (resume_on_zero (land self), m, false) ≡ out = ground (arith, bad, e) in
          subst (Taken limit self t) ended (record {
            turn = failed (ground arith) (ground (arith, bad)) refl;
            whole = λ acc. absurd (cc);
            fits = ground (arith, f);
          })
      | inr sound ↦
          let gone : count_and_go (land self) m t prg r ≡ out = ground (arith, sound, found, e) in
          let rest =
            count_and_go-Taken buffers limit (land self) m t prg r sound l all g f iso full expects
              p in
          subst (Taken limit self t) gone
            (record { turn = rest.turn; whole = rest.whole; fits = rest.fits })
    ]

module _ (buffers : List Buffer) (limit : ℕ) where
  -- Every transfer at libusb is placed and covers its whole buffer, and the buffers that are left fit.
  pub record IsWhole (s : Sys) : Type 0 where
    pub safe : IsSafe buffers limit s
    pub whole : All (Whole s.store s.self.states) s.flying
    pub fits : All (Fits limit) s.self.buf_current

  rejoin-Whole :
      (m : Store) (states : Progresses) (accepted : Bool) (ts : List ℕ) (t : ℕ)
      → All (Whole m states) ts
      → (accepted ≡ true → Whole m states t)
      → All (Whole m states) (if accepted then ts ++ t ∷ [] else ts)
  rejoin-Whole m states true ts t h again = All-snoc (Whole m states) ts (again refl) h
  rejoin-Whole m states false ts t h again = h

  fill-PipeStep :
      (u : Sys) (i t : ℕ) (c : Completion) (r : ℤ) {w : Sys}
      → sizes buffers < size_mod
      → get_elem? u.flying i ≡ some t
      → c.actual_length ≡ (u.store t).length
      → deliver u i t c r ≡ some w
      → IsWhole u
      → IsWhole w × ((more : List Region) × PipeStep (view_pipe u) (view_pipe w) more)
  fill-PipeStep u i t c r {w} all h full e v =
      let (out, m', accepted, found, eq) = deliver-cases u i t c r e in
      let m = update u.store t (finish c (u.store t)) in
      let (prg, entry, placed) =
        All-get (Safe buffers limit (sizes u.self.buf_current) u.store u.self.states) u.flying i
          v.safe.safe h in
      let (prg', entry', expects) = All-get (Whole u.store u.self.states) u.flying i v.whole h in
      let same : m t ≡ finish c (u.store t) = ground arith in
      let expects' : prg.expected ≡ (m t).length = ground (arith, entry, entry', expects, same) in
      let taken =
        transfer_callback-Taken buffers limit u.self m t prg r (out, m', accepted) found entry
          v.safe.cap all v.safe.good v.fits (rw same (v.safe.types t)) (rw same full) expects'
          (Placed-less buffers limit _ _ (omega arith) (ap (λ x. x.buffer) same)
            (ap (λ x. x.length) same) placed) in
      let frame = transfer_callback-Framed buffers limit u.self m t r _ found v.safe.good in
      let kept : (p : ℕ) → p ≢ t → m' p ≡ u.store p =
        λ p n. frame.store p n ∙ ground (arith, n, ==_iff p t) in
      let (other, _) = Distinct-erase_at u.flying i v.safe.distinct h in
      let left = All-erase_at (Whole u.store u.self.states) u.flying i v.whole in
      let rest : All (Whole m' out.states) (erase_at u.flying i) =
        All-both (λ p. p ≢ t) (Whole u.store u.self.states) (Whole m' out.states)
          (λ p n (q, at_p, len).
            (q, frame.entry p n ∙ at_p, len ∙ sym (ap (λ x. x.length) (kept p n))))
          (erase_at u.flying i) other left in
      let step =
        Turn-PipeStep (stage_of u) i t m' out.buf_current out.ec accepted h v.safe.distinct kept
          taken.turn in
      (
        record {
          safe = serve-IsSafe buffers limit u i t c r all h (omega (arith, full)) e v.safe;
          whole =
              subst (λ x. All (Whole x.store x.self.states) x.flying) (sym eq)
                (rejoin-Whole m' out.states accepted (erase_at u.flying i) t rest taken.whole);
          fits = subst (λ x. All (Fits limit) x.self.buf_current) (sym eq) taken.fits;
        },
        subst (λ x. (more : List Region) × PipeStep (view_pipe u) (view_pipe x) more) (sym eq) step,
      )

  -- Every full run is a run of the pipe.
  pub Full-PipeRun :
      {s u : Sys}
      → sizes buffers < size_mod
      → IsWhole s
      → Full s u
      → IsWhole u × ((given : List Region) × PipeRun (view_pipe s) given (view_pipe u))
  Full-PipeRun all v rests = (v, ([], waits))
  Full-PipeRun all v (fills {u = u} i t c r run h full e) =
      let (whole, (given, ran)) = Full-PipeRun all v run in
      let (whole', (more, step)) = fill-PipeStep u i t c r all h full e whole in
      (whole', (given ++ more, goes ran step))
