-- ===== src/Transfer/Sequence.antt =====
-- include/co_usb/transfer/concepts/transfer_sequence.hpp, transfer/detail/iterator.hpp,
-- transfer/sequence_view.hpp and transfer/resource.hpp. An iterator is the number of steps from the
-- begin of the sequence.
pub mod Loops
mod Tests
use co_usb.Prelude.{
  ℕ, zero, suc, ◌+◌, ◌-◌, Option, none, some, List, [], ◌∷◌, ◌==◌, length, get_elem?, if◌then◌else◌,
}

-- A `TransferResource`: the pointer itself, or an object with `get`.
pub data TransferResource : Type 0 where
  pointer getter : ℕ → TransferResource

unfoldable pub transfer_of : TransferResource → ℕ
transfer_of (TransferResource.pointer p) = p
transfer_of (TransferResource.getter p) = p

-- A `TransferSequence`: one resource, or a range of them.
pub data TransferSequence : Type 0 where
  single : TransferResource → TransferSequence
  range : List TransferResource → TransferSequence

abbrev pub resources : TransferSequence → List TransferResource
resources (TransferSequence.single r) = r ∷ []
resources (TransferSequence.range rs) = rs

unfoldable pub transfer_begin : TransferSequence → ℕ
transfer_begin s = 0

unfoldable pub transfer_end : TransferSequence → ℕ
transfer_end (TransferSequence.single r) = 0 + 1
transfer_end (TransferSequence.range rs) = length rs

-- `for (; it != end; it++)`, whose body takes the transfer at `it`. `none` is a dereference outside
-- the sequence, or the end of the fuel.
unfoldable pub for_each {ℓ} :
    {S : Type ℓ} → ℕ → List TransferResource → ℕ → ℕ → (ℕ → S → S) → S → Option S
unfolding transfer_of
for_each zero rs it end body s = none
for_each (suc fuel) rs it end body s = if it == end then some s else elim (get_elem? rs it) [
  | none ↦ none
  | some r ↦ for_each fuel rs (it + 1) end body (body (transfer_of r) s)
]

-- The loop over a whole sequence, as the operations write it.
unfoldable pub for_all {ℓ} : {S : Type ℓ} → TransferSequence → (ℕ → S → S) → S → Option S
unfolding for_each transfer_begin transfer_end
for_all s body m =
    for_each (suc (length (resources s))) (resources s) (transfer_begin s) (transfer_end s) body m

pub record SequenceView : Type 0 where
  pub sequence : TransferSequence
  pub m_begin : ℕ
  pub m_end : ℕ

unfoldable pub make_view : TransferSequence → SequenceView
unfolding transfer_begin transfer_end
make_view s = record { sequence = s; m_begin = transfer_begin s; m_end = transfer_end s }

unfoldable pub view_of_range : TransferSequence → ℕ → ℕ → SequenceView
view_of_range s begin end = record { sequence = s; m_begin = begin; m_end = end }

unfoldable pub size : SequenceView → ℕ
size v = v.m_end - v.m_begin

unfoldable pub view_begin : SequenceView → ℕ
view_begin v = v.m_begin

unfoldable pub view_end : SequenceView → ℕ
view_end v = v.m_begin

-- The constructor of `resource`, given what `libusb_alloc_transfer` returns; `none` is the exception
-- `std::bad_alloc`.
unfoldable pub make_resource : ℕ → Option TransferResource
make_resource tfer = if tfer == 0 then none else some (TransferResource.getter tfer)
