-- ===== src/Wrapper/DeviceRef/Balance.antt =====
-- libusb's count of a device and the references to it.
use co_usb.Prelude.{ℕ, ◌+◌, ◌≡◌, ◌≢◌, ◌<◌, length, ==_iff, arith}
use co_usb.Prelude.Slots.{slot, one_if, count, count-snoc, count-set_slot}
use co_usb.Wrapper.DeviceRef.{
  DeviceRefs, make_null_ref, make_device_ref, destroy_device_ref, copy_device_ref,
  assign_device_ref, release_device_ref,
}

-- libusb counts `base` references to `p` besides those of the library.
abbrev pub Balanced : ℕ → ℕ → DeviceRefs → Type 0
Balanced p base s = s.counts p ≡ base + count p s.m_devs

-- Where libusb's count of a device that is not null is a number `base` more than the references to it, it still is
-- after a reference is constructed, copied or destroyed; a copy assignment adds to `base` the reference
-- that is overwritten, if it was to this device, and `release` adds the one that is given up.
pub device_refs-Balanced :
    (p base self other dev : ℕ) (s : DeviceRefs)
    → p ≢ 0
    → self < length s.m_devs
    → Balanced p base s
    → Balanced p base (make_null_ref s)
      × Balanced p base (make_device_ref dev s)
      × Balanced p base (copy_device_ref other s)
      × Balanced p base (destroy_device_ref self s)
      × Balanced p (base + one_if p (slot s.m_devs self)) (assign_device_ref self other s)
      × Balanced p (base + one_if p (slot s.m_devs self)) (release_device_ref self s).0
unfolding make_null_ref make_device_ref copy_device_ref destroy_device_ref assign_device_ref
    release_device_ref
device_refs-Balanced p base self other dev s z h b =
    let q = slot s.m_devs other in
    let old = slot s.m_devs self in
    let nought = ==_iff 0 p in
    let dropped = count-set_slot p 0 s.m_devs self h in
    let placed = count-set_slot p q s.m_devs self h in
    (
      ground (arith, nought, count-snoc p 0 s.m_devs),
      ground (arith, ==_iff p dev, ==_iff dev p, count-snoc p dev s.m_devs),
      ground (arith, nought, ==_iff p q, ==_iff q p, count-snoc p q s.m_devs),
      ground (arith, nought, ==_iff p old, ==_iff old p, dropped),
      ground (arith, nought, ==_iff p q, ==_iff q p, placed),
      ground (arith, nought, dropped),
    )
