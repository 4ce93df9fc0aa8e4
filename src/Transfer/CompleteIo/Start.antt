-- ===== src/Transfer/CompleteIo/Start.antt =====
-- The two loops of `await_suspend`, as `complete_submit` of include/co_usb/transfer/complete_io.hpp
-- runs them.
use co_usb.Prelude.{
  ℕ, zero, suc, ◌+◌, ◌≤◌, ◌≡◌, refl, ◌∙◌, some, none, List, [], ◌∷◌, length, take, drop,
  Option-cases, inl, inr, is_some, true, arith,
}
use co_usb.Prelude.Int.{ℤ}
use co_usb.Transfer.Record.{Buffer, Store, SameTypes, update-SameTypes}
use co_usb.Transfer.Complete.{
  Awaitable, Progress, Progresses, new_progress, get_or, at, put, fill_transfers, submit_transfers,
}
use co_usb.Transfer.Complete.Entries.{Tracked, at-put, totals, totals-put}
use co_usb.Transfer.PartialIo.Start.{Accepts}

totals-put_new :
    (states : Progresses) (t : ℕ) (prg : Progress)
    → at states t ≡ none
    → totals (put states t prg) ≡ totals states + prg.total
unfolding totals at put
totals-put_new [] t prg h = omega arith
totals-put_new ((q, o) ∷ states) t prg h = ground (arith, totals-put_new states t prg)

totals-reset :
    (states : Progresses) (t p e : ℕ)
    → totals (put states t (record (get_or (at states t) new_progress) { ptr = p; expected = e }))
      ≡ totals states
totals-reset states t p e = elim (Option-cases (at states t)) [
  | inl new ↦ rw new (omega (arith, totals-put_new states t _ new))
  | inr (old, found) ↦ rw found (omega (arith, totals-put states t _ old found))
]

-- A key that has an entry keeps it.
put-keeps :
    (states : Progresses) (t : ℕ) (prg : Progress) (p : ℕ)
    → is_some (at states p) ≡ true
    → is_some (at (put states t prg) p) ≡ true
put-keeps states t prg p h = ground (arith, at-put states t prg p)

-- The first loop takes one buffer for each transfer, and every transfer it has passed has an entry;
-- new entries have moved no byte.
pub fill_transfers_lem :
    (n : ℕ) (ts : List ℕ) (bs : List Buffer) (self : Awaitable) (states : Progresses) (m : Store)
    → n ≤ length ts
    → n ≤ length bs
    → (m' : Store) × (states' : Progresses) × (fill_transfers n ts
          (record self { buf_current = bs; states = states })
          m
        ≡ some (record self { buf_current = drop n bs; states = states' }, m'))
      × SameTypes m' m
      × Tracked states' (take n ts)
      × (totals states' ≡ totals states)
      × ((p : ℕ) → is_some (at states p) ≡ true → is_some (at states' p) ≡ true)
unfolding fill_transfers
fill_transfers_lem zero ts bs self states m h k = (m, states, refl, λ p. refl, tt, refl, λ p q. q)
fill_transfers_lem (suc n) [] bs self states m h k = absurd (omega arith)
fill_transfers_lem (suc n) (t ∷ ts) [] self states m h k = absurd (omega arith)
fill_transfers_lem (suc n) (t ∷ ts) (b ∷ bs) self states m h k =
    let (m', states', e, same, tracked, sum, keeps) =
      fill_transfers_lem n ts bs self _ _ (omega arith) (omega arith) in
    (
      m',
      states',
      e,
      λ p. same p ∙ update-SameTypes m t _ refl p,
      (keeps t (rw at-put (ground arith)), tracked),
      sum ∙ totals-reset states t b.data_ptr b.size,
      λ p q. keeps p (put-keeps states t _ p q),
    )

-- The second loop, where libusb takes every transfer.
pub submit_transfers_all :
    (n : ℕ) (ts : List ℕ) (i : ℕ) (results : ℕ → ℤ) (self : Awaitable)
    → Accepts results i n
    → submit_transfers n ts i results self ≡ (self, take n ts)
unfolding submit_transfers
submit_transfers_all zero ts i results self h = refl
submit_transfers_all (suc n) [] i results self h = refl
submit_transfers_all (suc n) (t ∷ ts) i results self h = ground (
  arith,
  h i (omega arith) (omega arith),
  submit_transfers_all n ts (i + 1) results self (λ j p q. h j (omega arith) (omega arith)),
)
