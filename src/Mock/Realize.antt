-- ===== src/Mock/Realize.antt =====
-- `usb_mock_realize`, `usb_mock_handler_reset` and `usb_mock_handle_control` of qemu/9.2.4/mock.c.
use co_usb.Prelude.{
  ℕ, Bool, true, false, not, Option, none, some, Option-cases, inl, inr, ◌≡◌, sym, subst, List,
  if◌then◌else◌, arith,
}
use co_usb.Prelude.Int.{ℤ, is_negative}
use co_usb.Mock.{UsbPacket, Token, token_in}

-- What the device reads and writes of a `USBDevice`, and the rest that only QEMU knows.
pub record UsbDevice (R : Type 0) : Type 0 where
  pub auto_attach : ℕ
  pub attached : Bool
  pub rest : R

-- The functions of QEMU that the device calls, with its errors and endpoints. A function returns the
-- device, and the packet and the data, as it leaves them.
pub record QemuUsb (R E P : Type 0) : Type 0 where
  pub usb_desc_create_serial : UsbDevice R → UsbDevice R
  pub usb_desc_init : UsbDevice R → UsbDevice R
  pub usb_check_attach : UsbDevice R → UsbDevice R × Option E
  pub usb_device_attach : UsbDevice R → UsbDevice R × Option E
  pub usb_ep_get : UsbDevice R → Token → ℕ → P
  pub usb_desc_handle_control :
      UsbDevice R → UsbPacket → ℤ → ℤ → ℤ → ℤ → List ℕ → UsbDevice R × UsbPacket × List ℕ × ℤ

-- `errp` has the error of the check; QEMU ends, as `error_abort` tells it to; or the device is there,
-- with `intr`.
pub data Realized (R E P : Type 0) : Type 0 where
  refused : UsbDevice R → E → Realized R E P
  aborted : E → Realized R E P
  realized : UsbDevice R → P → Realized R E P

unfoldable pub usb_mock_handler_reset : {R : Type 0} → UsbDevice R → UsbDevice R
usb_mock_handler_reset dev = dev

module _ {R E P : Type 0} (qemu : QemuUsb R E P) where
  -- From the test of `attached` on.
  unfoldable pub attach_device : UsbDevice R → Realized R E P
  attach_device dev =
      let attached = qemu.usb_device_attach dev in
      if not dev.attached
      then elim attached.1 [
        | some e ↦ aborted e
        | none ↦ realized attached.0 (qemu.usb_ep_get attached.0 token_in 1)
      ]
      else realized dev (qemu.usb_ep_get dev token_in 1)

  unfoldable pub usb_mock_realize : UsbDevice R → Realized R E P
  unfolding attach_device usb_mock_handler_reset
  usb_mock_realize dev =
      let made : UsbDevice R = record (qemu.usb_desc_init (qemu.usb_desc_create_serial dev)) {
        auto_attach = 0;
      } in
      let checked = qemu.usb_check_attach made in
      elim checked.1 [
        | some e ↦ refused checked.0 e
        | none ↦ attach_device (usb_mock_handler_reset checked.0)
      ]

  -- Both branches return.
  unfoldable pub usb_mock_handle_control :
      UsbDevice R → UsbPacket → ℤ → ℤ → ℤ → ℤ → List ℕ → UsbDevice R × UsbPacket × List ℕ
  usb_mock_handle_control dev p request value index length bytes =
      let (dev', p', bytes', ret) =
        qemu.usb_desc_handle_control dev p request value index length bytes in
      if not (is_negative ret) then (dev', p', bytes') else (dev', p', bytes')

  -- What a realized device is: attached, and not attached by QEMU itself.
  pub data IsAttached : Realized R E P → Type 0 where
    not_there : {d : UsbDevice R} {e : E} → d.attached ≡ false → IsAttached (refused d e)
    ended : {e : E} → IsAttached (aborted e)
    there :
        {d : UsbDevice R}
        → d.attached ≡ true
        → d.auto_attach ≡ 0
        → IsAttached (realized d (qemu.usb_ep_get d token_in 1))

  -- Where the descriptor functions leave a device unattached, the check changes nothing, and QEMU
  -- attaches a device without changing its `auto_attach` or fails, `usb_mock_realize` on a device that
  -- is not attached leaves it unattached with the error of the check, or ends QEMU, or
  -- leaves a device that is attached, whose `auto_attach` is 0, and whose endpoint is IN 1.
  pub usb_mock_realize-IsAttached :
      (dev : UsbDevice R)
      → ((d : UsbDevice R)
          → d.attached ≡ false
          → (qemu.usb_desc_init (qemu.usb_desc_create_serial d)).attached ≡ false)
      → ((d : UsbDevice R) → (qemu.usb_check_attach d).0 ≡ d)
      → ((d : UsbDevice R)
          → (qemu.usb_device_attach d).1 ≡ none
          → ((qemu.usb_device_attach d).0.attached ≡ true)
            × ((qemu.usb_device_attach d).0.auto_attach ≡ d.auto_attach))
      → dev.attached ≡ false
      → IsAttached (usb_mock_realize dev)
  unfolding usb_mock_realize attach_device usb_mock_handler_reset
  usb_mock_realize-IsAttached dev desc check attach un =
      let made : UsbDevice R = record (qemu.usb_desc_init (qemu.usb_desc_create_serial dev)) {
        auto_attach = 0;
      } in
      elim (Option-cases (qemu.usb_check_attach made).1) [
        | inr (e, bad) ↦
            let e' : usb_mock_realize dev ≡ refused made e = ground (arith, bad, check made) in
            subst IsAttached (sym e') (not_there (desc dev un))
        | inl ok ↦ elim (Option-cases (qemu.usb_device_attach made).1) [
          | inr (e, bad) ↦
              let e' : usb_mock_realize dev ≡ aborted e =
                ground (arith, ok, bad, check made, desc dev un) in
              subst IsAttached (sym e') ended
          | inl fine ↦
              let there' = (qemu.usb_device_attach made).0 in
              let e' : usb_mock_realize dev ≡ realized there' (qemu.usb_ep_get there' token_in 1) =
                ground (arith, ok, fine, check made, desc dev un) in
              subst IsAttached (sym e') (there (attach made fine).0 (attach made fine).1)
        ]
      ]
