-- ===== src/Wrapper/DeviceHandle/Owners.antt =====
-- The `device_handle`s of include/co_usb/wrapper/device_handle.hpp, in numbered places: a destroyed or
-- moved-from one has the null pointer. `reset`, which `close` and the destructor are too, and `release`
-- are those of one handle; the moves are those of `std::unique_ptr`.
pub mod Balance
mod Tests
use co_usb.Prelude.{ℕ, List, [], ◌∷◌, ◌++◌}
use co_usb.Prelude.Slots.{slot, set_slot}
use co_usb.Wrapper.DeviceHandle.{DeviceHandle, get, reset, release_handle, close_handle}

-- The pointers of the handles, the calls of `libusb_close`, and the pointers that `release` gave away.
pub record Handles : Type 0 where
  pub storages : List ℕ
  pub closed : List ℕ
  pub given : List ℕ

abbrev pub handle_at : ℕ → Handles → DeviceHandle
handle_at self s = record { m_storage = slot s.storages self }

unfoldable pub make_handle : ℕ → Handles → Handles
make_handle devh s = record s { storages = s.storages ++ devh ∷ [] }

-- The move constructor: the new handle is the last.
unfoldable pub move_handle : ℕ → Handles → Handles
move_handle other s = record s {
  storages = set_slot s.storages other 0 ++ slot s.storages other ∷ [];
}

unfoldable pub reset_at : ℕ → Handles → Handles
unfolding reset
reset_at self s =
    let (handle, closed) = reset (handle_at self s) s.closed in
    record s { storages = set_slot s.storages self handle.m_storage; closed = closed }

unfoldable pub close_at : ℕ → Handles → Handles
unfolding close_handle
close_at self s =
    let (handle, closed) = close_handle (handle_at self s) s.closed in
    record s { storages = set_slot s.storages self handle.m_storage; closed = closed }

unfoldable pub release_at : ℕ → Handles → Handles
unfolding release_handle
release_at self s =
    let (handle, devh) = release_handle (handle_at self s) in
    record s { storages = set_slot s.storages self handle.m_storage; given = s.given ++ devh ∷ [] }

-- `operator=`: `other` releases its pointer, and `self` is reset to it.
unfoldable pub assign_moved : ℕ → ℕ → Handles → Handles
unfolding reset
assign_moved self other s =
    let devh = slot s.storages other in
    let left : Handles = record s { storages = set_slot s.storages other 0 } in
    let (_, closed) = reset (handle_at self left) s.closed in
    record left { storages = set_slot left.storages self devh; closed = closed }
