-- ===== src/Mock.antt =====
-- qemu/9.2.4/mock.c: the device that the library is tested with. QEMU's functions are parameters;
-- what the device prints is left out, and so is its registration.
pub mod Descriptors
pub mod Realize
pub mod Laws
pub mod Bounds
pub mod Endpoints
mod Tests
use co_usb.Prelude.{
  ℕ, zero, suc, Bool, true, false, ◌||◌, Option, List, [], ◌∷◌, ◌++◌, ◌==◌, ltb, leb, not, length,
  drop, if◌then◌else◌,
}
use co_usb.Prelude.Int.{ℤ}
use co_usb.Prelude.Words.{int_half, int_of_size}

-- `USB_TOKEN_SETUP`, `USB_TOKEN_IN`, `USB_TOKEN_OUT`, and any other value of `pid`.
pub data Token : Type 0 where
  token_setup token_in token_out : Token
  other_token : ℤ → Token

-- `USB_RET_SUCCESS`, `USB_RET_NAK`, `USB_RET_STALL`, and any other value of `status`.
pub data RetStatus : Type 0 where
  ret_success ret_nak ret_stall : RetStatus
  other_status : ℤ → RetStatus

-- What the device reads and writes of a `USBPacket`: `iov.size` is the length of `iov`.
pub record UsbPacket : Type 0 where
  pub pid : Token
  pub ep_nr : ℕ
  pub iov : List ℕ
  pub actual_length : ℕ
  pub status : RetStatus

-- `usb_packet_copy(p, ptr, bytes)`: the packet and the memory behind `ptr` after it.
abbrev pub PacketCopy : Type 0
PacketCopy = UsbPacket → List ℕ → ℕ → UsbPacket × List ℕ

-- The buffers of the device: `outbuf`, and the static one of `usb_mock_token_in`.
pub record Buffers : Type 0 where
  pub outbuf : List ℕ
  pub token_buf : List ℕ

abbrev pub outbuf_size : ℕ
outbuf_size = 4096

abbrev pub token_buf_size : ℕ
token_buf_size = 262144

unfoldable pub repeat : ℕ → ℕ → List ℕ
repeat v zero = []
repeat v (suc n) = v ∷ repeat v n

-- `memset(buf, v, n)`.
unfoldable pub memset : List ℕ → ℕ → ℕ → List ℕ
unfolding repeat
memset buf v n = repeat v n ++ drop n buf

unfoldable pub usb_mock_token_in : PacketCopy → Buffers → UsbPacket → Buffers × UsbPacket
unfolding memset
usb_mock_token_in usb_packet_copy s p =
    let packet_len = int_of_size (length p.iov) in
    let copied = usb_packet_copy p (memset s.token_buf 0xFF packet_len) packet_len in
    if packet_len == 0 || leb int_half packet_len || ltb token_buf_size packet_len
    then (s, record p { status = ret_nak })
    else (record s { token_buf = copied.1 }, record copied.0 { status = ret_success })

-- The case of `USB_TOKEN_OUT` for endpoint 2.
unfoldable pub usb_mock_token_out : PacketCopy → Buffers → UsbPacket → Buffers × UsbPacket
usb_mock_token_out usb_packet_copy s p =
    let copied = usb_packet_copy p s.outbuf (length p.iov) in
    if leb outbuf_size (length p.iov)
    then (s, record p { status = ret_nak })
    else (record s { outbuf = copied.1 }, record copied.0 { status = ret_success })

unfoldable pub usb_mock_handle_data : PacketCopy → Buffers → UsbPacket → Buffers × UsbPacket
unfolding usb_mock_token_in usb_mock_token_out
usb_mock_handle_data usb_packet_copy s p = elim p.pid [
  | token_out ↦
      if not (p.ep_nr == 2)
      then (s, record p { status = ret_stall })
      else usb_mock_token_out usb_packet_copy s p
  | token_in ↦
      if not (p.ep_nr == 1)
      then (s, record p { status = ret_stall })
      else usb_mock_token_in usb_packet_copy s p
  | token_setup ↦ (s, record p { status = ret_stall })
  | other_token _ ↦ (s, record p { status = ret_stall })
]
