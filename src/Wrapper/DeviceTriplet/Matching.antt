-- ===== src/Wrapper/DeviceTriplet/Matching.antt =====
-- When two device triplets match.
mod Tests
use co_usb.Prelude.{◌≡◌, refl, ◌↔◌, Bool, true, false, ◌||◌, arith}
use co_usb.Prelude.Int.{ℤ, pos, negsuc, ◌==ℤ◌, ==ℤ_iff}
use co_usb.Libusb.{match_any}
use co_usb.Wrapper.DeviceTriplet.{
  DeviceTriplet, any_triplet, triplet_eq, wildcard_cmp, wildcard_match, DeviceDescriptor,
  triplet_from_descriptor,
}

wildcard_cmp_refl : (a : ℤ) → wildcard_cmp a a ≡ true
unfolding wildcard_cmp
wildcard_cmp_refl (pos a) = ground arith
wildcard_cmp_refl (negsuc a) = ground arith

wildcard_cmp_comm : (a b : ℤ) → wildcard_cmp a b ≡ wildcard_cmp b a
unfolding wildcard_cmp
wildcard_cmp_comm (pos a) (pos b) = ground arith
wildcard_cmp_comm (pos a) (negsuc b) = ground arith
wildcard_cmp_comm (negsuc a) (pos b) = ground arith
wildcard_cmp_comm (negsuc a) (negsuc b) = ground arith

wildcard_cmp_any : (a : ℤ) → wildcard_cmp match_any a ≡ true
unfolding wildcard_cmp
wildcard_cmp_any (pos a) = ground arith
wildcard_cmp_any (negsuc a) = ground arith

-- The comparator takes every triplet to match itself and the default triplet, and its answer does
-- not depend on the order of the two.
pub wildcard_match_lem :
    (a b : DeviceTriplet)
    → (wildcard_match a a ≡ true)
      × (wildcard_match any_triplet a ≡ true)
      × (wildcard_match a b ≡ wildcard_match b a)
unfolding wildcard_match
wildcard_match_lem a b = (
  ground (arith, wildcard_cmp_refl a.vid, wildcard_cmp_refl a.pid, wildcard_cmp_refl a.dev_class),
  ground (arith, wildcard_cmp_any a.vid, wildcard_cmp_any a.pid, wildcard_cmp_any a.dev_class),
  ground (
    arith,
    wildcard_cmp_comm a.vid b.vid,
    wildcard_cmp_comm a.pid b.pid,
    wildcard_cmp_comm a.dev_class b.dev_class,
  ),
)

-- Two triplets that come from device descriptors match just when they are equal, by the comparator
-- and by `operator==` alike.
pub wildcard_match-triplet_from_descriptor :
    (a b : DeviceDescriptor)
    → let x = triplet_from_descriptor a in
      let y = triplet_from_descriptor b in
      (wildcard_match x y ≡ triplet_eq x y) × ((wildcard_match x y ≡ true) ↔ (a ≡ b))
unfolding wildcard_match wildcard_cmp triplet_eq triplet_from_descriptor
wildcard_match-triplet_from_descriptor a b = (ground arith, ground arith)
