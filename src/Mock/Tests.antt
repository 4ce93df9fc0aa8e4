-- ===== src/Mock/Tests.antt =====
-- Packets for the device of qemu/9.2.4/mock.c, with a copy that is written out.
use co_usb.Prelude.{
  ℕ, ◌+◌, ◌≡◌, ◌↔◌, refl, false, true, none, [], ◌∷◌, ◌++◌, leb, if◌then◌else◌, length,
  length-append, length-drop, length-take, take, drop, arith,
}
use co_usb.Prelude.Int.{pos}
use co_usb.Mock.{
  token_in, token_out, token_setup, other_token, ret_stall, other_status, UsbPacket, PacketCopy,
  Buffers, repeat, usb_mock_handle_data,
}
use co_usb.Mock.Descriptors.{desc_iface_super}
use co_usb.Mock.Laws.{CopyLaws, IsSized, length-repeat, Answered, usb_mock_handle_data-Answered}
use co_usb.Mock.Bounds.{Agrees, KeepsSize, handle_packets, handle_packets-Agrees}
use co_usb.Mock.Endpoints.{declared, usb_mock_handle_data-declared}
use co_usb.Mock.Realize.{
  UsbDevice, QemuUsb, realized, usb_mock_realize, attach_device, usb_mock_handler_reset,
}

abbrev copy_bytes : PacketCopy
copy_bytes p buf n = elim p.pid [
  | token_out ↦ (
    record p { actual_length = p.actual_length + n },
    take n (drop p.actual_length p.iov) ++ drop n buf,
  )
  | token_in ↦ (
    record p {
      iov = take p.actual_length p.iov ++ take n buf ++ drop (p.actual_length + n) p.iov;
      actual_length = p.actual_length + n;
    },
    buf,
  )
  | token_setup ↦ (p, buf)
  | other_token _ ↦ (p, buf)
]

copy_bytes-CopyLaws : CopyLaws copy_bytes
copy_bytes-CopyLaws = record {
  copy_out = λ p buf n pid le fits. ground (arith, pid);
  copy_in = λ p buf n pid le fits. ground (arith, pid);
}

copy_bytes-KeepsSize : KeepsSize copy_bytes
copy_bytes-KeepsSize p buf n le fits = ground (
  arith,
  le,
  fits,
  length-append (take n (drop p.actual_length p.iov)) (drop n buf),
  length-take n (drop p.actual_length p.iov),
  length-drop p.actual_length p.iov,
  length-drop n buf,
)

abbrev zeroed : Buffers
zeroed = record { outbuf = repeat 0 4096; token_buf = repeat 0 262144 }

zeroed-IsSized : IsSized zeroed
zeroed-IsSized = record {
  outbuf_sized = length-repeat 0 4096;
  token_sized = length-repeat 0 262144;
}

-- Two bytes for OUT 2, and room for three from IN 1.
abbrev two_bytes : UsbPacket
two_bytes = record {
  pid = token_out;
  ep_nr = 2;
  iov = 72 ∷ 105 ∷ [];
  actual_length = 0;
  status = other_status (pos 7);
}

abbrev three_wanted : UsbPacket
three_wanted = record two_bytes { pid = token_in; ep_nr = 1; iov = 0 ∷ 0 ∷ 0 ∷ [] }

usb_mock_handle_data-Answered_example : Answered copy_bytes zeroed two_bytes
usb_mock_handle_data-Answered_example =
    usb_mock_handle_data-Answered copy_bytes zeroed two_bytes copy_bytes-CopyLaws zeroed-IsSized
      refl

-- A copy that goes wrong past the end of the packet.
abbrev wild_bytes : PacketCopy
wild_bytes p buf n =
    if leb (p.actual_length + n) (length p.iov) then copy_bytes p buf n else (p, [])

copy_bytes-Agrees : Agrees copy_bytes wild_bytes
copy_bytes-Agrees p buf n le fits = ground (arith, le)

handle_packets-Agrees_example :
    handle_packets copy_bytes zeroed (two_bytes ∷ three_wanted ∷ [])
    ≡ handle_packets wild_bytes zeroed (two_bytes ∷ three_wanted ∷ [])
handle_packets-Agrees_example =
    handle_packets-Agrees copy_bytes wild_bytes zeroed (two_bytes ∷ three_wanted ∷ [])
      copy_bytes-Agrees copy_bytes-KeepsSize zeroed-IsSized (refl, (refl, tt))

usb_mock_handle_data-declared_example :
    ((usb_mock_handle_data copy_bytes zeroed two_bytes).1.status ≡ ret_stall)
    ↔ (declared desc_iface_super.eps token_out 2 ≡ false)
usb_mock_handle_data-declared_example = usb_mock_handle_data-declared copy_bytes zeroed two_bytes

-- A QEMU in which every device can be attached.
abbrev plain_qemu : QemuUsb ℕ ℕ ℕ
plain_qemu = record {
  usb_desc_create_serial = λ d. d;
  usb_desc_init = λ d. d;
  usb_check_attach = λ d. (d, none);
  usb_device_attach = λ d. (record d { attached = true }, none);
  usb_ep_get = λ d token nr. nr;
  usb_desc_handle_control = λ d p request value index length bytes. (d, p, bytes, pos 0);
}

abbrev plain_device : UsbDevice ℕ
plain_device = record { auto_attach = 1; attached = false; rest = 0 }

-- The device is realized with its endpoint IN 1.
plain_realized :
    usb_mock_realize plain_qemu plain_device
    ≡ realized (record { auto_attach = 0; attached = true; rest = 0 }) 1
unfolding usb_mock_realize attach_device usb_mock_handler_reset
plain_realized = refl
