-- ===== src/Wrapper/DeviceHandle/Owners/Tests.antt =====
-- Three handles, of which the last two hold a device each.
use co_usb.Prelude.{◌+◌, ◌≡◌, [], ◌∷◌, arith}
use co_usb.Prelude.Slots.{slot}
use co_usb.Wrapper.DeviceHandle.Owners.{
  Handles, make_handle, move_handle, reset_at, close_at, release_at, assign_moved,
}
use co_usb.Wrapper.DeviceHandle.Owners.Balance.{accounted, handles-accounted}

abbrev three : Handles
three = record { storages = 0 ∷ 8 ∷ 9 ∷ []; closed = []; given = [] }

handles-accounted_example :
    (accounted 9 (move_handle 2 three) ≡ accounted 9 three)
    × (accounted 9 (assign_moved 1 2 three) ≡ accounted 9 three)
    × (accounted 9 (reset_at 1 three) ≡ accounted 9 three)
    × (accounted 9 (close_at 1 three) ≡ accounted 9 three)
    × (accounted 9 (release_at 1 three) ≡ accounted 9 three)
    × (accounted 9 (make_handle 9 three) ≡ accounted 9 three + 1)
    × (slot (assign_moved 1 1 three).storages 1 ≡ slot three.storages 1)
handles-accounted_example =
    handles-accounted 9 1 2 three (λ e. omega (arith, e)) (omega arith) (omega arith)
