-- ===== src/Mock/Bounds.antt =====
-- The memory that `usb_mock_handle_data` of qemu/9.2.4/mock.c lets QEMU read and write.
use co_usb.Prelude.{ℕ, ◌+◌, All, ◌≤◌, ◌≡◌, refl, List, [], ◌∷◌, length, arith}
use co_usb.Prelude.Words.{int_of_size}
use co_usb.Mock.{
  UsbPacket, PacketCopy, Buffers, memset, usb_mock_token_in, usb_mock_token_out,
  usb_mock_handle_data,
}
use co_usb.Mock.Laws.{IsSized, length-memset}

-- The device answers packet after packet.
unfoldable pub handle_packets : PacketCopy → Buffers → List UsbPacket → Buffers × List UsbPacket
unfolding usb_mock_handle_data
handle_packets copy s [] = (s, [])
handle_packets copy s (p ∷ ps) =
    let (s', p') = usb_mock_handle_data copy s p in
    let (s'', ps') = handle_packets copy s' ps in (s'', p' ∷ ps')

-- Two copies do the same within the packet and the memory.
abbrev pub Agrees : PacketCopy → PacketCopy → Type 0
Agrees copy other =
    (p : UsbPacket) (buf : List ℕ) (n : ℕ)
    → p.actual_length + n ≤ length p.iov
    → n ≤ length buf
    → copy p buf n ≡ other p buf n

-- A copy within the memory leaves the memory its size.
abbrev pub KeepsSize : PacketCopy → Type 0
KeepsSize copy =
    (p : UsbPacket) (buf : List ℕ) (n : ℕ)
    → p.actual_length + n ≤ length p.iov
    → n ≤ length buf
    → length (copy p buf n).1 ≡ length buf

usb_mock_handle_data-IsSized :
    (copy : PacketCopy) (s : Buffers) (p : UsbPacket)
    → KeepsSize copy
    → IsSized s
    → p.actual_length ≡ 0
    → IsSized (usb_mock_handle_data copy s p).0
unfolding usb_mock_handle_data usb_mock_token_in usb_mock_token_out int_of_size
usb_mock_handle_data-IsSized copy s p keeps sized start =
    let n = int_of_size (length p.iov) in
    ground (
      arith,
      sized,
      start,
      keeps p s.outbuf (length p.iov),
      keeps p (memset s.token_buf 0xFF n) n,
      length-memset s.token_buf 0xFF n,
    )

usb_mock_handle_data-Agrees :
    (copy other : PacketCopy) (s : Buffers) (p : UsbPacket)
    → Agrees copy other
    → IsSized s
    → p.actual_length ≡ 0
    → usb_mock_handle_data copy s p ≡ usb_mock_handle_data other s p
unfolding usb_mock_handle_data usb_mock_token_in usb_mock_token_out int_of_size
usb_mock_handle_data-Agrees copy other s p agrees sized start =
    let n = int_of_size (length p.iov) in
    ground (
      arith,
      sized,
      start,
      agrees p s.outbuf (length p.iov),
      agrees p (memset s.token_buf 0xFF n) n,
      length-memset s.token_buf 0xFF n,
    )

-- With buffers of the sizes of their declarations, packets of which nothing has been copied, and a copy
-- that keeps the size of what it copies into, the answers to a sequence of packets do not depend on
-- what the copy does where it would pass the end of a packet or of a buffer.
pub handle_packets-Agrees :
    (copy other : PacketCopy) (s : Buffers) (ps : List UsbPacket)
    → Agrees copy other
    → KeepsSize copy
    → IsSized s
    → All (λ p. p.actual_length ≡ 0) ps
    → handle_packets copy s ps ≡ handle_packets other s ps
unfolding handle_packets
handle_packets-Agrees copy other s [] agrees keeps sized starts = refl
handle_packets-Agrees copy other s (p ∷ ps) agrees keeps sized starts =
    let same = usb_mock_handle_data-Agrees copy other s p agrees sized starts.0 in
    let rest =
      handle_packets-Agrees copy other (usb_mock_handle_data copy s p).0 ps agrees keeps
        (usb_mock_handle_data-IsSized copy s p keeps sized starts.0) starts.1 in
    ground (arith, same, rest)
