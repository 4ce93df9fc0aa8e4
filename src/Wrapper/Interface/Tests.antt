-- ===== src/Wrapper/Interface/Tests.antt =====
-- Two owners, one of them null.
use co_usb.Prelude.{◌≡◌, refl, [], ◌∷◌, arith}
use co_usb.Prelude.Int.{pos, negsuc}
use co_usb.Wrapper.Interface.{
  Interface, Owners, release, move_interface, assign_interface, destroy_interface,
}
use co_usb.Wrapper.Interface.Ownership.{accounted, interfaces-accounted}

abbrev held : Interface
held = record { m_devh = 5; m_interface_num = 1 }

abbrev two : Owners
two = record { owners = record { m_devh = 5; m_interface_num = 2 } ∷ held ∷ []; released = [] }

moved_over :
    (assign_interface 0 1 (pos 0) two).0.released ≡ record { m_devh = 5; m_interface_num = 2 } ∷ []
unfolding assign_interface release
moved_over = refl

interfaces-accounted_example :
    let released = (release 0 (pos 0) two).0 in
    (accounted 5 1 released ≡ accounted 5 1 two)
    × (accounted 5 1 (move_interface 1 two) ≡ accounted 5 1 two)
    × (accounted 5 1 (assign_interface 0 1 (pos 0) two).0 ≡ accounted 5 1 two)
    × (accounted 5 1 (destroy_interface 0 (pos 0) two).0 ≡ accounted 5 1 two)
    × ((release 0 (negsuc 0) released).0 ≡ released)
interfaces-accounted_example =
    interfaces-accounted 5 1 0 1 (pos 0) (negsuc 0) two (λ e. omega (arith, e)) (omega arith)
      (omega arith)
