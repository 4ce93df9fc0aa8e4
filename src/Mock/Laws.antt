-- ===== src/Mock/Laws.antt =====
-- How `usb_mock_handle_data` of qemu/9.2.4/mock.c answers a packet.
use co_usb.Prelude.{
  ℕ, zero, suc, ◌+◌, ◌≤◌, ◌<◌, ◌≡◌, refl, List, [], ◌∷◌, ◌++◌, ap, length, length-append,
  length-drop, take, drop, append-nil, arith,
}
use co_usb.Prelude.Words.{int_of_size_lt}
use co_usb.Mock.{
  token_in, token_out, ret_success, ret_nak, UsbPacket, PacketCopy, Buffers, outbuf_size,
  token_buf_size, repeat, memset, usb_mock_token_in, usb_mock_token_out, usb_mock_handle_data,
}

-- What QEMU's `usb_packet_copy` does within the packet and the memory: it copies behind what was
-- copied before, out of an OUT packet and into an IN packet.
pub record CopyLaws (usb_packet_copy : PacketCopy) : Type 0 where
  pub copy_out :
      (p : UsbPacket) (buf : List ℕ) (n : ℕ)
      → p.pid ≡ token_out
      → p.actual_length + n ≤ length p.iov
      → n ≤ length buf
      → usb_packet_copy p buf n ≡ (
        record p { actual_length = p.actual_length + n },
        take n (drop p.actual_length p.iov) ++ drop n buf,
      )
  pub copy_in :
      (p : UsbPacket) (buf : List ℕ) (n : ℕ)
      → p.pid ≡ token_in
      → p.actual_length + n ≤ length p.iov
      → n ≤ length buf
      → usb_packet_copy p buf n ≡ (
        record p {
          iov = take p.actual_length p.iov ++ take n buf ++ drop (p.actual_length + n) p.iov;
          actual_length = p.actual_length + n;
        },
        buf,
      )

-- The buffers have the sizes of their declarations.
pub record IsSized (s : Buffers) : Type 0 where
  pub outbuf_sized : length s.outbuf ≡ outbuf_size
  pub token_sized : length s.token_buf ≡ token_buf_size

pub length-repeat : (v n : ℕ) → length (repeat v n) ≡ n
unfolding repeat
length-repeat v zero = refl
length-repeat v (suc n) = ap suc (length-repeat v n)

pub length-memset : (buf : List ℕ) (v n : ℕ) → n ≤ length buf → length (memset buf v n) ≡ length buf
unfolding memset
length-memset buf v n le =
    omega (arith, length-append (repeat v n) (drop n buf), length-repeat v n, length-drop n buf)

take-all : (xs : List ℕ) → take (length xs) xs ≡ xs
take-all [] = refl
take-all (x ∷ xs) = ap (◌∷◌ x) (take-all xs)

drop-all : (xs : List ℕ) → drop (length xs) xs ≡ []
drop-all [] = refl
drop-all (x ∷ xs) = drop-all xs

take-repeat : (v n : ℕ) (rest : List ℕ) → take n (repeat v n ++ rest) ≡ repeat v n
unfolding repeat
take-repeat v zero rest = refl
take-repeat v (suc n) rest = ap (◌∷◌ v) (take-repeat v n rest)

-- How a packet is answered.
pub record Answered (copy : PacketCopy) (s : Buffers) (p : UsbPacket) : Type 0 where
  pub stored :
      p.pid ≡ token_out
      → p.ep_nr ≡ 2
      → length p.iov < outbuf_size
      → usb_mock_handle_data copy s p ≡ (
        record s { outbuf = p.iov ++ drop (length p.iov) s.outbuf },
        record p { actual_length = length p.iov; status = ret_success },
      )
  pub filled :
      p.pid ≡ token_in
      → p.ep_nr ≡ 1
      → 0 < length p.iov
      → length p.iov ≤ token_buf_size
      → usb_mock_handle_data copy s p ≡ (
        record s { token_buf = memset s.token_buf 0xFF (length p.iov) },
        record p {
          iov = repeat 0xFF (length p.iov);
          actual_length = length p.iov;
          status = ret_success;
        },
      )
  pub too_long :
      p.pid ≡ token_out
      → p.ep_nr ≡ 2
      → outbuf_size ≤ length p.iov
      → usb_mock_handle_data copy s p ≡ (s, record p { status = ret_nak })
  pub empty :
      p.pid ≡ token_in
      → p.ep_nr ≡ 1
      → length p.iov ≡ 0
      → usb_mock_handle_data copy s p ≡ (s, record p { status = ret_nak })

-- Where QEMU copies by its laws, and with the buffers of their sizes, a packet of which nothing has
-- been copied is answered so: OUT 2 with less than 4096 bytes goes to the front of `outbuf`; IN 1 with
-- between 1 and 262144 bytes is filled with 0xFF; OUT 2 with more, and IN 1 with none, gets NAK
-- and changes nothing.
pub usb_mock_handle_data-Answered :
    (copy : PacketCopy) (s : Buffers) (p : UsbPacket)
    → CopyLaws copy
    → IsSized s
    → p.actual_length ≡ 0
    → Answered copy s p
unfolding usb_mock_handle_data usb_mock_token_in usb_mock_token_out memset
usb_mock_handle_data-Answered copy s p laws sized start = record {
  stored = λ pid nr lt.
      let c =
        laws.copy_out p s.outbuf (length p.iov) pid (omega (arith, start))
          (omega (arith, lt, sized)) in
      ground (arith, pid, nr, lt, c, start, take-all p.iov);
  filled = λ pid nr pos le.
      let n = length p.iov in
      let m = memset s.token_buf 0xFF n in
      let c =
        laws.copy_in p m n pid (omega (arith, start))
          (omega (arith, le, sized, length-memset s.token_buf 0xFF n)) in
      ground (
        arith,
        pid,
        nr,
        pos,
        le,
        c,
        start,
        drop-all p.iov,
        int_of_size_lt n,
        take-repeat 0xFF n (drop n s.token_buf),
        append-nil (repeat 0xFF n),
      );
  too_long = λ pid nr le. ground (arith, pid, nr, le);
  empty = λ pid nr z. ground (arith, pid, nr, z, int_of_size_lt (length p.iov));
}
