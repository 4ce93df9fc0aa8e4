-- ===== src/Transfer/Complete/Frame.antt =====
-- What one callback of include/co_usb/transfer/detail/complete_sequence_awaitable.hpp leaves to the
-- transfers.
use co_usb.Prelude.{
  ℕ, ◌+◌, ◌≤◌, ◌<◌, ◌≡◌, ◌≢◌, refl, sym, ap, subst, ◌∙◌, inl, inr, Bool, Bool-cases, true, false,
  Option-cases, none, some, List, All, ==_iff, arith,
}
use co_usb.Prelude.Int.{ℤ}
use co_usb.Prelude.Words.{size_mod, add_size, add_size_lt, size_of_int_lt}
use co_usb.Errors.{ErrorCode, is_error}
use co_usb.Transfer.Record.{Buffer, Store, is_isochronous}
use co_usb.Transfer.Complete.{
  Awaitable, Progress, at, put, resume_on_zero, submit_again, next_buffer, same_buffer, go_on,
  count_and_go, transfer_callback, transfer_error, subtotal_of,
}
use co_usb.Transfer.Complete.Counting.{land}
use co_usb.Transfer.Complete.Entries.{at-put}
use co_usb.Transfer.Complete.Placement.{sizes, Good, Placed, Safe, Resubmits, go_on-Resubmits}

module _ (buffers : List Buffer) (limit : ℕ) where
  -- The buffers that are left are still good and no more than before, and another transfer than `t` keeps
  -- its fields and its entry.
  pub record Framed (t : ℕ) (self : Awaitable) (m : Store) (out : Awaitable × Store × Bool)
      : Type 0 where
    pub cap : out.0.single_transfer_limit ≡ self.single_transfer_limit
    pub good : All (Good buffers limit) out.0.buf_current
    pub less : sizes out.0.buf_current ≤ sizes self.buf_current
    pub store : (p : ℕ) → p ≢ t → out.1 p ≡ m p
    pub entry : (p : ℕ) → p ≢ t → at out.0.states p ≡ at self.states p

  go_on-Framed :
      (self : Awaitable) (m : Store) (t : ℕ) (prg : Progress) (bytes : ℕ) (r : ℤ)
      → All (Good buffers limit) self.buf_current
      → Framed t self m (go_on self m t prg bytes r)
  unfolding go_on next_buffer same_buffer submit_again resume_on_zero sizes
  go_on-Framed self m t prg bytes r g = record {
    cap = ground arith;
    good = ground (arith, g);
    less = ground arith;
    store = λ p n. ground (arith, n, ==_iff t p);
    entry = λ p n. grind (arith, n, ==_iff t p, at-put);
  }

  -- Where the transfer is fine, the callback goes on with its bytes counted.
  pub count_and_go-fine :
      (self : Awaitable) (m : Store) (t : ℕ) (prg : Progress) (r : ℤ)
      → transfer_error (m t) ≡ none
      → let counted : Progress = record prg { total = add_size prg.total (subtotal_of (m t)) } in
        count_and_go self m t prg r
        ≡ go_on
            (record self { states = put self.states t counted })
            m
            t
            counted
            (subtotal_of (m t))
            r
  unfolding count_and_go
  count_and_go-fine self m t prg r ok = ground (arith, ok)

  pub count_and_go-failed :
      (self : Awaitable) (m : Store) (t : ℕ) (prg : Progress) (r : ℤ) (e : ErrorCode)
      → transfer_error (m t) ≡ some e
      → (count_and_go self m t prg r).2 ≡ false
  unfolding count_and_go
  count_and_go-failed self m t prg r e bad = ground (arith, bad)

  count_and_go-Framed :
      (self : Awaitable) (m : Store) (t : ℕ) (prg : Progress) (r : ℤ)
      → All (Good buffers limit) self.buf_current
      → Framed t self m (count_and_go self m t prg r)
  unfolding count_and_go resume_on_zero
  count_and_go-Framed self m t prg r g =
      let counted : Progress = record prg { total = add_size prg.total (subtotal_of (m t)) } in
      let self' : Awaitable = record self { states = put self.states t counted } in
      elim (Option-cases (transfer_error (m t))) [
        | inl ok ↦
            let rest = go_on-Framed self' m t counted (subtotal_of (m t)) r g in
            subst (Framed t self m) (sym (count_and_go-fine self m t prg r ok)) (record {
              cap = rest.cap;
              good = rest.good;
              less = rest.less;
              store = rest.store;
              entry = λ p n.
                  rest.entry p n ∙ ground (arith, n, ==_iff t p, at-put self.states t counted p);
            })
        | inr (e, bad) ↦ record {
          cap = ground (arith, bad);
          good = ground (arith, bad, g);
          less = ground (arith, bad);
          store = λ p n. ground (arith, bad);
          entry = λ p n. ground (arith, bad, n, ==_iff t p, at-put self.states t counted p);
        }
      ]

  count_and_go-Resubmits :
      (self : Awaitable) (m : Store) (t : ℕ) (prg : Progress) (r : ℤ)
      → self.single_transfer_limit ≡ limit
      → sizes buffers < size_mod
      → All (Good buffers limit) self.buf_current
      → is_isochronous (m t).type ≡ false
      → (m t).actual_length ≤ (m t).length
      → Placed buffers limit (sizes self.buf_current) (m t) prg
      → (count_and_go self m t prg r).2 ≡ true
      → Resubmits buffers limit t (count_and_go self m t prg r)
  unfolding subtotal_of
  count_and_go-Resubmits self m t prg r l all g iso fits p acc =
      elim (Option-cases (transfer_error (m t))) [
        | inl ok ↦
            let bytes : subtotal_of (m t) ≡ (m t).actual_length =
              ground (arith, iso, p, p.good, size_of_int_lt (m t).actual_length) in
            let total : add_size prg.total (subtotal_of (m t)) ≡ prg.total + (m t).actual_length =
              rw bytes (add_size_lt prg.total (m t).actual_length (omega (arith, p))) in
            let counted : Progress = record prg {
              total = add_size prg.total (subtotal_of (m t));
            } in
            let self' : Awaitable = record self { states = put self.states t counted } in
            let e = count_and_go-fine self m t prg r ok in
            subst (Resubmits buffers limit t) (sym e) (
              go_on-Resubmits buffers limit self' m t counted (subtotal_of (m t)) r l g
                (record {
                  buf = p.buf;
                  good = p.good;
                  starts = p.starts;
                  moved = omega (arith, p, bytes, total);
                  expected = p.expected;
                  inside = omega (arith, p, bytes);
                  room = omega (arith, p, bytes, total);
                })
                (ap (λ o. o.2) (sym e) ∙ acc))
        | inr (e, bad) ↦ absurd (ground (arith, acc, count_and_go-failed self m t prg r e bad))
      ]

  pub transfer_callback-Framed :
      (self : Awaitable) (m : Store) (t : ℕ) (r : ℤ) (out : Awaitable × Store × Bool)
      → transfer_callback self m t r ≡ some out
      → All (Good buffers limit) self.buf_current
      → Framed t self m out
  unfolding transfer_callback resume_on_zero
  transfer_callback-Framed self m t r out e g = elim (Bool-cases (is_error self.ec)) [
    | inl bad ↦
        let ended : (resume_on_zero (land self), m, false) ≡ out = ground (arith, bad, e) in
        subst (Framed t self m) ended (record {
          cap = ground arith;
          good = ground (arith, g);
          less = ground arith;
          store = λ p n. refl;
          entry = λ p n. ground arith;
        })
    | inr sound ↦ elim (Option-cases (at self.states t)) [
      | inl none_at ↦ absurd (ground (arith, sound, none_at, e))
      | inr (prg, found) ↦
          let went : count_and_go (land self) m t prg r ≡ out = ground (arith, sound, found, e) in
          let rest = count_and_go-Framed (land self) m t prg r g in
          subst (Framed t self m) went (record {
            cap = rest.cap;
            good = rest.good;
            less = rest.less;
            store = rest.store;
            entry = rest.entry;
          })
    ]
  ]

  pub transfer_callback-Resubmits :
      (self : Awaitable) (m : Store) (t : ℕ) (r : ℤ) (out : Awaitable × Store × Bool)
      → transfer_callback self m t r ≡ some out
      → self.single_transfer_limit ≡ limit
      → sizes buffers < size_mod
      → All (Good buffers limit) self.buf_current
      → is_isochronous (m t).type ≡ false
      → (m t).actual_length ≤ (m t).length
      → Safe buffers limit (sizes self.buf_current) m self.states t
      → out.2 ≡ true
      → Resubmits buffers limit t out
  unfolding transfer_callback resume_on_zero
  transfer_callback-Resubmits self m t r out e l all g iso fits (prg, found, p) acc =
      let same : count_and_go (land self) m t prg r ≡ out = ground (arith, found, e, acc) in
      subst (Resubmits buffers limit t) same
        (count_and_go-Resubmits (land self) m t prg r l all g iso fits p (ap (λ o. o.2) same ∙ acc))
