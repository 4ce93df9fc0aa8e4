-- ===== src/Wrapper/DeviceHandle/Owners/Balance.antt =====
-- Every device that a `device_handle` holds is closed once, or given away.
use co_usb.Prelude.{ℕ, ◌+◌, ◌<◌, ◌≡◌, ◌≢◌, length, ==_iff, arith}
use co_usb.Prelude.Slots.{
  slot, set_slot, count, count-snoc, count-set_slot, length-set_slot, slot-set_slot,
}
use co_usb.Wrapper.DeviceHandle.{reset, release_handle, close_handle}
use co_usb.Wrapper.DeviceHandle.Owners.{
  Handles, make_handle, move_handle, reset_at, close_at, release_at, assign_moved,
}

-- How often a device is held, was closed or was given away.
abbrev pub accounted : ℕ → Handles → ℕ
accounted devh s = count devh s.storages + count devh s.closed + count devh s.given

reset_at-accounted :
    (devh self : ℕ) (s : Handles)
    → devh ≢ 0
    → self < length s.storages
    → accounted devh (reset_at self s) ≡ accounted devh s
unfolding reset_at reset
reset_at-accounted devh self s z h = ground (
  arith,
  z,
  ==_iff 0 devh,
  ==_iff (slot s.storages self) 0,
  count-snoc devh (slot s.storages self) s.closed,
  count-set_slot devh 0 s.storages self h,
  count-set_slot devh (slot s.storages self) s.storages self h,
)

release_at-accounted :
    (devh self : ℕ) (s : Handles)
    → devh ≢ 0
    → self < length s.storages
    → accounted devh (release_at self s) ≡ accounted devh s
unfolding release_at release_handle
release_at-accounted devh self s z h = ground (
  arith,
  z,
  ==_iff 0 devh,
  count-snoc devh (slot s.storages self) s.given,
  count-set_slot devh 0 s.storages self h,
)

move_handle-accounted :
    (devh other : ℕ) (s : Handles)
    → devh ≢ 0
    → other < length s.storages
    → accounted devh (move_handle other s) ≡ accounted devh s
unfolding move_handle
move_handle-accounted devh other s z h = ground (
  arith,
  z,
  ==_iff 0 devh,
  count-snoc devh (slot s.storages other) (set_slot s.storages other 0),
  count-set_slot devh 0 s.storages other h,
)

assign_moved-accounted :
    (devh self other : ℕ) (s : Handles)
    → devh ≢ 0
    → self < length s.storages
    → other < length s.storages
    → accounted devh (assign_moved self other s) ≡ accounted devh s
unfolding assign_moved reset
assign_moved-accounted devh self other s z h k =
    let left = set_slot s.storages other 0 in
    ground (
      arith,
      z,
      ==_iff 0 devh,
      ==_iff (slot left self) 0,
      length-set_slot s.storages other 0,
      count-snoc devh (slot left self) s.closed,
      count-set_slot devh 0 s.storages other k,
      count-set_slot devh (slot s.storages other) left self,
    )

-- For a device that is not null, and handles in place: a move, a move assignment (also of a handle to
-- itself), a `reset`, a `close`, a destruction and a `release` each leave the number of handles that
-- hold the device, of its closes and of the times it was given away the same together; a new handle of
-- the device adds one; and a move assignment of a handle to itself leaves it what it was.
pub handles-accounted :
    (devh self other : ℕ) (s : Handles)
    → devh ≢ 0
    → self < length s.storages
    → other < length s.storages
    → (accounted devh (move_handle other s) ≡ accounted devh s)
      × (accounted devh (assign_moved self other s) ≡ accounted devh s)
      × (accounted devh (reset_at self s) ≡ accounted devh s)
      × (accounted devh (close_at self s) ≡ accounted devh s)
      × (accounted devh (release_at self s) ≡ accounted devh s)
      × (accounted devh (make_handle devh s) ≡ accounted devh s + 1)
      × (slot (assign_moved self self s).storages self ≡ slot s.storages self)
unfolding close_at close_handle make_handle assign_moved reset_at
handles-accounted devh self other s z h k = (
  move_handle-accounted devh other s z k,
  assign_moved-accounted devh self other s z h k,
  reset_at-accounted devh self s z h,
  reset_at-accounted devh self s z h,
  release_at-accounted devh self s z h,
  ground (arith, count-snoc devh devh s.storages),
  ground (
    arith,
    length-set_slot s.storages self 0,
    slot-set_slot (set_slot s.storages self 0) self self (slot s.storages self),
  ),
)
