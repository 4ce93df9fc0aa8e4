-- ===== src/Wrapper/Interface.antt =====
-- include/co_usb/wrapper/interface.hpp. The owners are numbered places; a destroyed or moved-from owner
-- has the null handle. `r` is what libusb returns.
pub mod Ownership
mod Tests
use co_usb.Prelude.{ℕ, zero, suc, not, List, [], ◌∷◌, ◌++◌, ◌==◌, if◌then◌else◌}
use co_usb.Prelude.Int.{ℤ, ◌==ℤ◌}
use co_usb.Libusb
use co_usb.Errors.{ErrorCode, no_error, is_error, make_usb_error_code}
use co_usb.Wrapper.ErrorProtocol.{ErrorProtocol}

pub record Interface : Type 0 where
  pub m_devh : ℕ
  pub m_interface_num : ℕ

abbrev pub null_interface : Interface
null_interface = record { m_devh = 0; m_interface_num = 0 }

abbrev pub owner : List Interface → ℕ → Interface
owner [] i = null_interface
owner (x ∷ xs) zero = x
owner (x ∷ xs) (suc i) = owner xs i

abbrev pub set_owner : List Interface → ℕ → Interface → List Interface
set_owner [] i x = []
set_owner (y ∷ xs) zero x = x ∷ xs
set_owner (y ∷ xs) (suc i) x = y ∷ set_owner xs i x

-- The owners, and the calls of `libusb_release_interface`.
pub record Owners : Type 0 where
  pub owners : List Interface
  pub released : List Interface

abbrev pub without_handle : Interface → Interface
without_handle x = record x { m_devh = 0 }

unfoldable pub release : ℕ → ℤ → Owners → Owners × ErrorCode
release self r s =
    let x = owner s.owners self in
    if x.m_devh == 0 then (s, no_error) else (
      record s {
        owners = set_owner s.owners self (without_handle x);
        released = s.released ++ x ∷ [];
      },
      if r ==ℤ Libusb.success then no_error else make_usb_error_code r,
    )

-- The move constructor: the new owner is the last.
unfoldable pub move_interface : ℕ → Owners → Owners
move_interface other s =
    let x = owner s.owners other in
    record s { owners = set_owner s.owners other (without_handle x) ++ x ∷ [] }

-- `operator=`, with the error that it throws.
unfoldable pub assign_interface : ℕ → ℕ → ℤ → Owners → Owners × ErrorCode
unfolding release
assign_interface self other r s =
    let (s', ec) = release self r s in
    let x = owner s'.owners other in
    if self == other then (s, no_error) else if is_error ec then (s', ec) else (
      record s' { owners = set_owner (set_owner s'.owners self x) other (without_handle x) },
      no_error,
    )

-- The destructor, with the error that it throws.
unfoldable pub destroy_interface : ℕ → ℤ → Owners → Owners × ErrorCode
unfolding release
destroy_interface self r s = release self r s

-- `devh` is the handle of the source.
unfoldable pub claim_interface : (p : ErrorProtocol) → ℕ → ℕ → ℤ → p.return_type Interface
claim_interface p devh interface_num r =
    if not (r ==ℤ Libusb.success)
    then p.with_error (make_usb_error_code r)
    else p.with_success (record { m_devh = devh; m_interface_num = interface_num })
