-- ===== src/Wrapper/DeviceRef/Tests.antt =====
-- Two references to a device that libusb counts three times.
use co_usb.Prelude.{ℕ, ◌+◌, ◌≡◌, refl, [], ◌∷◌, arith}
use co_usb.Wrapper.DeviceRef.{
  DeviceRefs, make_null_ref, make_device_ref, destroy_device_ref, copy_device_ref,
  assign_device_ref, release_device_ref,
}
use co_usb.Wrapper.DeviceRef.Balance.{Balanced, device_refs-Balanced}

abbrev two : DeviceRefs
two = record { m_devs = 6 ∷ 7 ∷ 6 ∷ []; counts = λ p. 3 }

two-Balanced : Balanced 6 1 two
unfolding co_usb.Prelude.Slots.count
two-Balanced = refl

device_refs-Balanced_example :
    Balanced 6 1 (make_null_ref two)
    × Balanced 6 1 (make_device_ref 6 two)
    × Balanced 6 1 (copy_device_ref 1 two)
    × Balanced 6 1 (destroy_device_ref 0 two)
    × Balanced 6 2 (assign_device_ref 0 1 two)
    × Balanced 6 2 (release_device_ref 0 two).0
device_refs-Balanced_example =
    device_refs-Balanced 6 1 0 1 6 two (λ e. omega (arith, e)) (omega arith) two-Balanced
