-- ===== src/Transfer/Sequence/Loops.antt =====
-- What the loops over a transfer sequence visit.
use native.Mathlib.Numerals.{add-one}
use co_usb.Prelude.{
  ℕ, zero, suc, ◌+◌, ◌≤◌, ◌<◌, ◌≡◌, refl, ap, ◌∙◌, some, List, [], ◌∷◌, length, get_elem?, drop,
  take, arith,
}
use co_usb.Transfer.Sequence.{
  TransferResource, TransferSequence, resources, transfer_of, transfer_begin, transfer_end,
  for_each, for_all, make_view, size, view_begin, view_end,
}

-- The transfers in order, folded by a loop's body.
unfoldable pub visit {ℓ} : {S : Type ℓ} → List TransferResource → (ℕ → S → S) → S → S
visit [] body s = s
visit (r ∷ rs) body s = visit rs body (body (transfer_of r) s)

-- `rs` is what the sequence `all` holds from position `it` on.
abbrev From : List TransferResource → ℕ → List TransferResource → Type 0
From all it rs = drop it all ≡ rs

From-next :
    (all : List TransferResource) (it : ℕ) {r : TransferResource} {rs : List TransferResource}
    → From all it (r ∷ rs)
    → (get_elem? all it ≡ some r) × From all (it + 1) rs
From-next [] zero h = absurd (cc)
From-next [] (suc it) h = absurd (cc)
From-next (x ∷ all) zero h = ground arith
From-next (x ∷ all) (suc it) h =
    let (here, next) = From-next all it h in (here, rw (add-one) (rw add-one at next))

-- From position `it` on, a loop that ends at `it + n` visits the next `n` transfers.
pub for_each-visit {ℓ} :
    {S : Type ℓ} (all rs : List TransferResource) (it end n fuel : ℕ) (body : ℕ → S → S) (s : S)
    → From all it rs
    → end ≡ it + n
    → n ≤ length rs
    → n < fuel
    → for_each fuel all it end body s ≡ some (visit (take n rs) body s)
unfolding for_each visit
for_each-visit all rs it end n zero body s f e h lt = absurd (omega arith)
for_each-visit all rs it end zero (suc fuel) body s f e h lt = ground arith
for_each-visit all [] it end (suc n) (suc fuel) body s f e h lt = absurd (omega arith)
for_each-visit all (r ∷ rs) it end (suc n) (suc fuel) body s f e h lt =
    let (here, next) = From-next all it f in
    ground (
      arith,
      here,
      for_each-visit all rs (it + 1) end n fuel body (body (transfer_of r) s) next (omega arith)
          (omega arith) (omega arith),
    )

take-length : (rs : List TransferResource) → take (length rs) rs ≡ rs
take-length [] = refl
take-length (r ∷ rs) = ap (◌∷◌ r) (take-length rs)

transfer_end-length : (s : TransferSequence) → transfer_end s ≡ length (resources s)
unfolding transfer_end
transfer_end-length (TransferSequence.single r) = refl
transfer_end-length (TransferSequence.range rs) = refl

-- The fuel of `for_all` is enough: the loop visits each transfer once, in order.
pub for_all-visit {ℓ} :
    {S : Type ℓ} (seq : TransferSequence) (body : ℕ → S → S) (s : S)
    → for_all seq body s ≡ some (visit (resources seq) body s)
unfolding for_all transfer_begin
for_all-visit seq body s =
    let rs = resources seq in
    rw (take-length rs) at (
      for_each-visit rs rs 0 (transfer_end seq) (length rs) (suc (length rs)) body s refl
        (transfer_end-length seq ∙ omega arith) (omega arith) (omega arith))

-- A view has the size of its sequence, and from its `begin()` a loop of `n` steps, no more than the
-- size, visits the first `n` transfers; but a loop from its `begin()` to its `end()` visits none.
pub view_loops :
    (seq : TransferSequence) (body : ℕ → List ℕ → List ℕ) (s : List ℕ) (n : ℕ)
    → n ≤ size (make_view seq)
    → let v = make_view seq in
      let rs = resources seq in
      (size v ≡ length rs)
      × (for_each (suc n) rs (view_begin v) (view_begin v + n) body s
          ≡ some (visit (take n rs) body s))
      × (for_each 1 rs (view_begin v) (view_end v) body s ≡ some s)
unfolding make_view size view_begin view_end transfer_begin for_each
view_loops seq body s n h =
    let rs = resources seq in
    let len = transfer_end-length seq in
    (
      ground (arith, len),
      for_each-visit rs rs 0 (0 + n) n (suc n) body s refl refl (omega (arith, len)) (omega arith),
      ends,
    )
  where
    ends : for_each 1 (resources seq) 0 0 body s ≡ some s
    ends = refl
