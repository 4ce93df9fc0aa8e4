-- ===== src/Transfer/PartialIo/Start.antt =====
-- The two loops of `await_suspend`, as `submit` of include/co_usb/transfer/partial_io.hpp runs them.
use co_usb.Prelude.{
  ℕ, zero, suc, ◌+◌, ◌≤◌, ◌<◌, ◌≡◌, ◌≢◌, refl, ◌∙◌, subst, some, List, [], ◌∷◌, length, take, drop,
  arith,
}
use co_usb.Prelude.Int.{ℤ, ==ℤ_iff}
use co_usb.Transfer.Record.{Buffer, Store}
use co_usb.Transfer.Status.{make_transfer_status}
use co_usb.Libusb
use co_usb.Transfer.Record.{SameTypes, update-SameTypes}
use co_usb.Transfer.Partial.{Awaitable, fill_transfers, submit_transfers}

-- The first loop takes one buffer for each transfer.
pub fill_transfers_lem :
    (n : ℕ) (ts : List ℕ) (bs : List Buffer) (self : Awaitable) (m : Store)
    → n ≤ length ts
    → n ≤ length bs
    → (m' : Store) × (fill_transfers n ts (record self { buf_current = bs }) m
        ≡ some (record self { buf_current = drop n bs }, m'))
      × SameTypes m' m
unfolding fill_transfers
fill_transfers_lem zero ts bs self m h k = (m, refl, λ p. refl)
fill_transfers_lem (suc n) [] bs self m h k = absurd (omega arith)
fill_transfers_lem (suc n) (t ∷ ts) [] self m h k = absurd (omega arith)
fill_transfers_lem (suc n) (t ∷ ts) (b ∷ bs) self m h k =
    let (m', e, same) = fill_transfers_lem n ts bs self _ (omega arith) (omega arith) in
    (m', e, λ p. same p ∙ update-SameTypes m t _ refl p)

abbrev pub Accepts : (ℕ → ℤ) → ℕ → ℕ → Type 0
Accepts results i n = (j : ℕ) → i ≤ j → j < i + n → results j ≡ Libusb.success

-- The second loop, where libusb takes every transfer.
pub submit_transfers_all :
    (n : ℕ) (ts : List ℕ) (i : ℕ) (results : ℕ → ℤ) (self : Awaitable)
    → Accepts results i n
    → submit_transfers n ts i results self ≡ (self, take n ts)
unfolding submit_transfers
submit_transfers_all zero ts i results self h = refl
submit_transfers_all (suc n) [] i results self h = refl
submit_transfers_all (suc n) (t ∷ ts) i results self h = ground (
  arith,
  h i (omega arith) (omega arith),
  submit_transfers_all n ts (i + 1) results self (λ j p q. h j (omega arith) (omega arith)),
)

-- The second loop, where the submission of its round `i + k` is the first that fails.
pub submit_transfers_stops :
    (k n : ℕ) (ts : List ℕ) (i : ℕ) (results : ℕ → ℤ) (self : Awaitable)
    → k < n
    → k < length ts
    → Accepts results i k
    → results (i + k) ≢ Libusb.success
    → submit_transfers n ts i results self
      ≡ (record self { ec = make_transfer_status (results (i + k)) }, take k ts)
unfolding submit_transfers
submit_transfers_stops k zero ts i results self h l a f = absurd (omega arith)
submit_transfers_stops k (suc n) [] i results self h l a f = absurd (omega arith)
submit_transfers_stops zero (suc n) (t ∷ ts) i results self h l a f =
    let e : i + 0 ≡ i = omega arith in
    rw e (
      ground
        (arith, subst (λ j. results j ≢ Libusb.success) e f, ==ℤ_iff (results i) Libusb.success))
submit_transfers_stops (suc k) (suc n) (t ∷ ts) i results self h l a f =
    let e : i + suc k ≡ i + 1 + k = omega arith in
    rw e (
      ground (
        arith,
        a i (omega arith) (omega arith),
        submit_transfers_stops k n ts (i + 1) results self (omega arith) (omega arith)
            (λ j p q. a j (omega arith) (omega arith))
            (subst (λ j. results j ≢ Libusb.success) e f),
      ))
