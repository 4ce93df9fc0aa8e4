-- ===== src/Transfer/Complete/Placement.antt =====
-- Where include/co_usb/transfer/detail/complete_sequence_awaitable.hpp lets a transfer read or write:
-- what the next submission of a transfer covers.
use co_usb.Prelude.{
  ℕ, ◌+◌, ◌-◌, ◌≤◌, ◌<◌, ◌≡◌, refl, sym, ap, subst, ◌∙◌, inl, inr, List-cases, min, Bool, true,
  Bool-cases, some, List, [], ◌∷◌, All, leb, get_elem?, arith,
}
use co_usb.Prelude.Int.{ℤ}
use co_usb.Prelude.Words.{
  size_mod, int_half, add_size, add_size_lt, inc_size, int_of_size, int_of_size_lt,
}
use co_usb.Transfer.Record.{Transfer, Buffer, Store, update}
use co_usb.Transfer.Complete.{
  Awaitable, Progress, Progresses, at, put, resume_on_zero, submit_again, next_buffer, same_buffer,
  go_on,
}
use co_usb.Transfer.Complete.Entries.{at-put}

-- The sizes of some buffers together.
unfoldable pub sizes : List Buffer → ℕ
sizes [] = 0
sizes (b ∷ bs) = b.size + sizes bs

module _ (buffers : List Buffer) (limit : ℕ) where
  -- One of the buffers, whose parts that are submitted have a length that an `int` holds, and which
  -- does not go round the end of the addresses.
  pub record Good (b : Buffer) : Type 0 where
    pub fits : min b.size limit < int_half
    pub ends : b.data_ptr + b.size < size_mod
    pub index : ℕ
    pub among : get_elem? buffers index ≡ some b

  -- The transfer covers a part of a buffer that begins at its progress, and the bytes that it has moved
  -- or may yet move, with those of the `free` buffers, are no more than all buffers have.
  pub record Placed (free : ℕ) (x : Transfer) (prg : Progress) : Type 0 where
    pub buf : Buffer
    pub good : Good buf
    pub starts : buf.data_ptr ≤ prg.ptr
    pub moved : prg.ptr ≤ buf.data_ptr + prg.total
    pub expected : prg.expected ≡ buf.size
    pub here : x.buffer ≡ prg.ptr
    pub inside : prg.ptr + x.length ≤ buf.data_ptr + buf.size
    pub short : x.length ≤ min buf.size limit
    pub room : prg.total + buf.data_ptr + buf.size + free ≤ sizes buffers + prg.ptr

  -- After `bytes` bytes of a completion have been counted.
  pub record Counted (free bytes : ℕ) (prg : Progress) : Type 0 where
    pub buf : Buffer
    pub good : Good buf
    pub starts : buf.data_ptr ≤ prg.ptr
    pub moved : prg.ptr + bytes ≤ buf.data_ptr + prg.total
    pub expected : prg.expected ≡ buf.size
    pub inside : prg.ptr + bytes ≤ buf.data_ptr + buf.size
    pub room : prg.total + buf.data_ptr + buf.size + free ≤ sizes buffers + prg.ptr + bytes

  -- An entry of the map that places the transfer.
  abbrev pub Safe : ℕ → Store → Progresses → ℕ → Type 0
  Safe free m states t = (prg : Progress) × (at states t ≡ some prg) × Placed free (m t) prg

  -- What the callback returned places the transfer for its next submission.
  abbrev pub Resubmits : ℕ → Awaitable × Store × Bool → Type 0
  Resubmits t (out, m, _) = Safe (sizes out.buf_current) m out.states t

  next_buffer-Resubmits :
      (self : Awaitable) (m : Store) (t : ℕ) (prg : Progress) (bytes : ℕ) (r : ℤ)
      → self.single_transfer_limit ≡ limit
      → All Good self.buf_current
      → Counted (sizes self.buf_current) bytes prg
      → (next_buffer self m t prg r).2 ≡ true
      → Resubmits t (next_buffer self m t prg r)
  unfolding next_buffer submit_again resume_on_zero sizes
  next_buffer-Resubmits self m t prg bytes r l g c acc = elim (List-cases self.buf_current) [
    | inl e ↦ absurd (ground (arith, e))
    | inr (b, bs, e) ↦
        let good : Good b = (subst (λ l. All Good l) e g).0 in
        let taken : Progress = record prg { ptr = b.data_ptr; expected = b.size } in
        let x : Transfer = record (m t) {
          buffer = b.data_ptr;
          length = int_of_size (min b.size self.single_transfer_limit);
        } in
        let out : Awaitable = record self {
          buf_current = bs;
          states = put self.states t taken;
          in_flight = inc_size self.in_flight;
        } in
        let e' : next_buffer self m t prg r ≡ (out, update m t x, true) = ground (arith, e, acc) in
        subst (Resubmits t) (sym e') (
          taken,
          ground (arith, at-put self.states t taken t),
          record {
            buf = b;
            good = good;
            starts = omega arith;
            moved = omega arith;
            expected = refl;
            here = ground arith;
            inside = ground (arith, l, good, int_of_size_lt (min b.size limit));
            short = ground (arith, l, good, int_of_size_lt (min b.size limit));
            room = ground (arith, c, e);
          },
        )
  ]

  same_buffer-Resubmits :
      (self : Awaitable) (m : Store) (t : ℕ) (prg : Progress) (bytes : ℕ) (r : ℤ)
      → self.single_transfer_limit ≡ limit
      → prg.total < prg.expected
      → Counted (sizes self.buf_current) bytes prg
      → (same_buffer self m t prg bytes r).2 ≡ true
      → Resubmits t (same_buffer self m t prg bytes r)
  unfolding same_buffer submit_again resume_on_zero
  same_buffer-Resubmits self m t prg bytes r l lt c acc =
      let on : Progress = record prg { ptr = add_size prg.ptr bytes } in
      let x : Transfer = record (m t) {
        buffer = add_size prg.ptr bytes;
        length = int_of_size (min (prg.expected - prg.total) self.single_transfer_limit);
      } in
      let out : Awaitable = record self {
        states = put self.states t on;
        in_flight = inc_size self.in_flight;
      } in
      let e' : same_buffer self m t prg bytes r ≡ (out, update m t x, true) = ground (arith, acc) in
      let sum : add_size prg.ptr bytes ≡ prg.ptr + bytes =
        add_size_lt prg.ptr bytes (omega (arith, c, c.good)) in
      let short : min (prg.expected - prg.total) limit < int_half = omega (arith, c, c.good) in
      let len : int_of_size (min (prg.expected - prg.total) limit)
          ≡ min (prg.expected - prg.total) limit =
        int_of_size_lt _ (omega arith) in
      subst (Resubmits t) (sym e') (
        on,
        ground (arith, at-put self.states t on t),
        record {
          buf = c.buf;
          good = c.good;
          starts = omega (arith, c, sum);
          moved = omega (arith, c, sum);
          expected = c.expected;
          here = ground arith;
          inside = ground (arith, c, sum, l, len);
          short = ground (arith, c, l, len);
          room = ground (arith, c, sum);
        },
      )

  pub go_on-Resubmits :
      (self : Awaitable) (m : Store) (t : ℕ) (prg : Progress) (bytes : ℕ) (r : ℤ)
      → self.single_transfer_limit ≡ limit
      → All Good self.buf_current
      → Counted (sizes self.buf_current) bytes prg
      → (go_on self m t prg bytes r).2 ≡ true
      → Resubmits t (go_on self m t prg bytes r)
  unfolding go_on
  go_on-Resubmits self m t prg bytes r l g c acc = elim (Bool-cases (leb prg.expected prg.total)) [
    | inl e ↦
        let e' : go_on self m t prg bytes r ≡ next_buffer self m t prg r = ground (arith, e) in
        subst (Resubmits t) (sym e')
          (next_buffer-Resubmits self m t prg bytes r l g c (ap (λ o. o.2) (sym e') ∙ acc))
    | inr e ↦
        let e' : go_on self m t prg bytes r ≡ same_buffer self m t prg bytes r =
          ground (arith, e) in
        subst (Resubmits t) (sym e') (
          same_buffer-Resubmits self m t prg bytes r l (ground (arith, e)) c
            (ap (λ o. o.2) (sym e') ∙ acc))
  ]
