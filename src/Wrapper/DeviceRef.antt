-- ===== src/Wrapper/DeviceRef.antt =====
-- include/co_usb/wrapper/device_ref.hpp. The references are numbered places; `counts` are libusb's
-- reference counts of the devices.
pub mod Balance
mod Tests
use co_usb.Prelude.{ℕ, ◌+◌, ◌-◌, Bool, not, List, [], ◌∷◌, ◌++◌, ◌==◌, if◌then◌else◌}
use co_usb.Prelude.Slots.{slot, set_slot}

pub record DeviceRefs : Type 0 where
  pub m_devs : List ℕ
  pub counts : ℕ → ℕ

-- `libusb_ref_device` and `libusb_unref_device`.
abbrev pub ref_device : ℕ → DeviceRefs → DeviceRefs
ref_device dev s = record s { counts = λ p. if p == dev then s.counts p + 1 else s.counts p }

abbrev pub unref_device : ℕ → DeviceRefs → DeviceRefs
unref_device dev s = record s { counts = λ p. if p == dev then s.counts p - 1 else s.counts p }

unfoldable pub make_null_ref : DeviceRefs → DeviceRefs
make_null_ref s = record s { m_devs = s.m_devs ++ 0 ∷ [] }

unfoldable pub make_device_ref : ℕ → DeviceRefs → DeviceRefs
make_device_ref dev s = ref_device dev (record s { m_devs = s.m_devs ++ dev ∷ [] })

unfoldable pub destroy_device_ref : ℕ → DeviceRefs → DeviceRefs
destroy_device_ref self s =
    let dev = slot s.m_devs self in
    let gone = record s { m_devs = set_slot s.m_devs self 0 } in
    if dev == 0 then gone else unref_device dev gone

unfoldable pub copy_device_ref : ℕ → DeviceRefs → DeviceRefs
copy_device_ref other s =
    let dev = slot s.m_devs other in
    let copied = record s { m_devs = s.m_devs ++ dev ∷ [] } in
    if dev == 0 then copied else ref_device dev copied

-- The copy assignment.
unfoldable pub assign_device_ref : ℕ → ℕ → DeviceRefs → DeviceRefs
assign_device_ref self other s =
    let dev = slot s.m_devs other in
    let assigned = record s { m_devs = set_slot s.m_devs self dev } in
    if dev == 0 then assigned else ref_device dev assigned

unfoldable pub valid_device_ref : ℕ → DeviceRefs → Bool
valid_device_ref self s = not (slot s.m_devs self == 0)

unfoldable pub release_device_ref : ℕ → DeviceRefs → DeviceRefs × ℕ
release_device_ref self s = (record s { m_devs = set_slot s.m_devs self 0 }, slot s.m_devs self)
