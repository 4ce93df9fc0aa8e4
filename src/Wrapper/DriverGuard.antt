-- ===== src/Wrapper/DriverGuard.antt =====
-- include/co_usb/wrapper/driver_guard.hpp. A guard has the fields of an interface's owner, and its
-- operations are that owner's with another function of libusb: `released` holds the calls of
-- `libusb_attach_kernel_driver` here.
use co_usb.Prelude.{ℕ, not, if◌then◌else◌}
use co_usb.Prelude.Int.{ℤ, ◌==ℤ◌}
use co_usb.Libusb
use co_usb.Errors.{ErrorCode, make_usb_error_code}
use co_usb.Wrapper.ErrorProtocol.{ErrorProtocol}
use co_usb.Wrapper.Interface.{
  Interface, Owners, release, move_interface, assign_interface, destroy_interface,
}

unfoldable pub attach : ℕ → ℤ → Owners → Owners × ErrorCode
unfolding release
attach self r s = release self r s

unfoldable pub move_guard : ℕ → Owners → Owners
unfolding move_interface
move_guard other s = move_interface other s

unfoldable pub assign_guard : ℕ → ℕ → ℤ → Owners → Owners × ErrorCode
unfolding assign_interface
assign_guard self other r s = assign_interface self other r s

unfoldable pub destroy_guard : ℕ → ℤ → Owners → Owners × ErrorCode
unfolding destroy_interface
destroy_guard self r s = destroy_interface self r s

unfoldable pub detach_driver : (p : ErrorProtocol) → ℕ → ℕ → ℤ → p.return_type Interface
detach_driver p devh interface_num r =
    if not (r ==ℤ Libusb.success)
    then p.with_error (make_usb_error_code r)
    else p.with_success (record { m_devh = devh; m_interface_num = interface_num })
