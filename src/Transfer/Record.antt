-- ===== src/Transfer/Record.antt =====
-- What the library reads and writes of a `libusb_transfer`, and of a buffer of a buffer sequence.
-- Pointers are addresses, and 0 is the null pointer.
use co_usb.Prelude.{ℕ, ◌≡◌, arith, Bool, true, false, List, ◌==◌, if◌then◌else◌}
use co_usb.Prelude.Int.{ℤ}

pub data TransferType : Type 0 where
  control isochronous bulk interrupt bulk_stream : TransferType

pub record Packet : Type 0 where
  pub actual_length : ℕ  -- unsigned int
  pub status : ℤ

-- The function that `callback` points to.
pub data Callback : Type 0 where
  none_set sequence_callback complete_callback : Callback

pub record Transfer : Type 0 where
  pub dev_handle : ℕ
  pub endpoint : ℕ  -- unsigned char
  pub type : TransferType
  pub timeout : ℕ  -- unsigned int
  pub status : ℤ
  pub length : ℕ  -- the bit pattern of an int
  pub actual_length : ℕ  -- the bit pattern of an int
  pub callback : Callback
  pub user_data : ℕ
  pub buffer : ℕ
  pub packets : List Packet  -- iso_packet_desc, num_iso_packets long
  pub stream_id : ℕ

abbrev pub is_isochronous : TransferType → Bool
is_isochronous TransferType.isochronous = true
is_isochronous _ = false

-- A `capy` buffer: `data()` and `size()`.
pub record Buffer : Type 0 where
  pub data_ptr : ℕ
  pub size : ℕ

-- The transfers that the pointers lead to.
abbrev pub Store : Type 0
Store = ℕ → Transfer

abbrev pub update : Store → ℕ → Transfer → Store
update m p t q = if p == q then t else m q

-- No write changes the type of a transfer.
abbrev pub SameTypes : Store → Store → Type 0
SameTypes m' m = (p : ℕ) → (m' p).type ≡ (m p).type

pub update-SameTypes :
    (m : Store) (t : ℕ) (x : Transfer) → x.type ≡ (m t).type → SameTypes (update m t x) m
update-SameTypes m t x h p = ground arith
