-- ===== src/Wrapper/DeviceTriplet/Matching/Tests.antt =====
-- Triplets of two devices.
use co_usb.Prelude.{◌≡◌, true, false, refl}
use co_usb.Prelude.Int.{pos}
use co_usb.Libusb.{match_any}
use co_usb.Wrapper.DeviceTriplet.{
  DeviceTriplet, any_triplet, triplet_eq, wildcard_match, DeviceDescriptor, triplet_from_descriptor,
}

abbrev mouse : DeviceDescriptor
mouse = record { id_vendor = 0x046d; id_product = 0xc077; device_class = 0 }

abbrev disk : DeviceDescriptor
disk = record { id_vendor = 0x0781; id_product = 0x5567; device_class = 8 }

abbrev any_disk : DeviceTriplet
any_disk = record { vid = match_any; pid = match_any; dev_class = pos 8 }

matches_class :
    (wildcard_match any_disk (triplet_from_descriptor disk) ≡ true)
    × (wildcard_match any_disk (triplet_from_descriptor mouse) ≡ false)
unfolding wildcard_match co_usb.Wrapper.DeviceTriplet.wildcard_cmp triplet_from_descriptor
matches_class = (refl, refl)
