-- ===== src/Transfer/Sequence/Tests.antt =====
-- A sequence of three resources.
use co_usb.Prelude.{◌≡◌, ◌≤◌, Option, refl, List, [], ◌∷◌, ◌++◌, arith}
use co_usb.Prelude.{ℕ}
use co_usb.Transfer.Sequence.{
  TransferResource, TransferSequence, resources, for_each, SequenceView, make_view, size,
  view_begin, view_end, make_resource,
}
use co_usb.Transfer.Sequence.Loops.{visit}

abbrev three : TransferSequence
three =
    TransferSequence.range
      (TransferResource.pointer 7 ∷ TransferResource.getter 8 ∷ TransferResource.pointer 9 ∷ [])

abbrev push : ℕ → List ℕ → List ℕ
push tfer l = l ++ tfer ∷ []

visits : visit (resources three) push [] ≡ 7 ∷ 8 ∷ 9 ∷ []
unfolding visit co_usb.Transfer.Sequence.transfer_of
visits = refl

bad_alloc : make_resource 0 ≡ Option.none
unfolding make_resource
bad_alloc = refl

enough : 2 ≤ size (make_view three)
unfolding size make_view co_usb.Transfer.Sequence.transfer_begin
    co_usb.Transfer.Sequence.transfer_end
enough = omega arith
