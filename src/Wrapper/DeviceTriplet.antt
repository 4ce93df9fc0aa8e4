-- ===== src/Wrapper/DeviceTriplet.antt =====
-- include/co_usb/wrapper/device_triplet.hpp.
pub mod Matching
use co_usb.Prelude.{ℕ, Bool, ◌&&◌, ◌||◌}
use co_usb.Prelude.Int.{ℤ, pos, ◌==ℤ◌}
use co_usb.Libusb.{match_any}

pub record DeviceTriplet : Type 0 where
  pub vid : ℤ
  pub pid : ℤ
  pub dev_class : ℤ

-- The fields' default values.
abbrev pub any_triplet : DeviceTriplet
any_triplet = record { vid = match_any; pid = match_any; dev_class = match_any }

-- `operator==`.
unfoldable pub triplet_eq : DeviceTriplet → DeviceTriplet → Bool
triplet_eq self other =
    (other.vid ==ℤ self.vid) && (other.pid ==ℤ self.pid) && (other.dev_class ==ℤ self.dev_class)

unfoldable pub wildcard_cmp : ℤ → ℤ → Bool
wildcard_cmp lhs rhs = (lhs ==ℤ rhs) || (lhs ==ℤ match_any) || (rhs ==ℤ match_any)

-- `wildcard_triplet_comparator`.
unfoldable pub wildcard_match : DeviceTriplet → DeviceTriplet → Bool
unfolding wildcard_cmp
wildcard_match lhs rhs =
    wildcard_cmp lhs.vid rhs.vid
    && wildcard_cmp lhs.pid rhs.pid
    && wildcard_cmp lhs.dev_class rhs.dev_class

-- The fields of `libusb_device_descriptor` that the library reads, which are unsigned.
pub record DeviceDescriptor : Type 0 where
  pub id_vendor : ℕ
  pub id_product : ℕ
  pub device_class : ℕ

unfoldable pub triplet_from_descriptor : DeviceDescriptor → DeviceTriplet
triplet_from_descriptor desc = record {
  vid = pos desc.id_vendor;
  pid = pos desc.id_product;
  dev_class = pos desc.device_class;
}
