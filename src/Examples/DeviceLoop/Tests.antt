-- ===== src/Examples/DeviceLoop/Tests.antt =====
-- A device loop with two reads, and one whose device is unplugged.
use co_usb.Prelude.{◌≡◌, refl, true, [], ◌∷◌}
use co_usb.Prelude.Int.{pos, negsuc}
use co_usb.Errors.{no_error, make_usb_error_code}
use co_usb.Examples.DeviceLoop.{Call, Outcome, Surroundings, dev_loop}

abbrev smooth : Surroundings
smooth = record {
  open_result = pos 0;
  open_handle = 7;
  detach_result = pos 0;
  claim_result = pos 0;
  release_result = pos 0;
  attach_result = pos 0;
  reads = (no_error, 100) ∷ (no_error, 28) ∷ [];
}

-- The device is gone when the second read ends.
abbrev unplugged : Surroundings
unplugged = record smooth {
  release_result = negsuc 3;
  attach_result = negsuc 3;
  reads = (no_error, 100) ∷ (make_usb_error_code (negsuc 3), 0) ∷ (no_error, 9) ∷ [];
}

smooth_loop : dev_loop 0 smooth ≡ (
  Outcome.returned,
  (
    Call.opened 7
        ∷ Call.detached 7 0
        ∷ Call.claimed 7 0
        ∷ Call.received 100
        ∷ Call.received 28
        ∷ Call.released 7 0
        ∷ Call.attached 7 0
        ∷ Call.closed 7
        ∷ [],
    128,
  ),
)
unfolding dev_loop co_usb.Prelude.Words.add_size
smooth_loop = refl
