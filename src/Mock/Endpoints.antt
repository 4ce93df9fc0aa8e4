-- ===== src/Mock/Endpoints.antt =====
-- The endpoints of the descriptors of qemu/9.2.4/mock.c and those that the device answers for.
use co_usb.Prelude.{ℕ, ◌%◌, ◌≡◌, ◌↔◌, Bool, false, ◌||◌, ◌&&◌, ◌==◌, leb, not, List, [], ◌∷◌, arith}
use co_usb.Mock.{
  Token, token_in, token_out, ret_stall, UsbPacket, PacketCopy, Buffers, usb_mock_token_in,
  usb_mock_token_out, usb_mock_handle_data,
}
use co_usb.Mock.Descriptors.{EndpointDesc, usb_dir_in, desc_iface_super}

-- The direction of a token of data, as the top bit of an endpoint's address.
abbrev direction : Token → ℕ → Bool
direction token_in address = leb usb_dir_in address
direction token_out address = not (leb usb_dir_in address)
direction _ address = false

-- Whether some descriptor is of the endpoint with a direction and a number.
unfoldable pub declared : List EndpointDesc → Token → ℕ → Bool
declared [] token nr = false
declared (d ∷ ds) token nr =
    (direction token d.endpoint_address && (d.endpoint_address % 16 == nr)) || declared ds token nr

-- The device answers a packet with STALL exactly if its interface descriptor has no endpoint with the
-- direction and the number of the packet, whatever QEMU's copy does.
pub usb_mock_handle_data-declared :
    (copy : PacketCopy) (s : Buffers) (p : UsbPacket)
    → ((usb_mock_handle_data copy s p).1.status ≡ ret_stall)
      ↔ (declared desc_iface_super.eps p.pid p.ep_nr ≡ false)
unfolding usb_mock_handle_data usb_mock_token_in usb_mock_token_out declared
usb_mock_handle_data-declared copy s p = ground arith
