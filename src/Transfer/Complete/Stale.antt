-- ===== src/Transfer/Complete/Stale.antt =====
-- What include/co_usb/transfer/detail/complete_sequence_awaitable.hpp does with a buffer that a
-- transfer takes after its first: `prg.total` still holds the bytes of the buffers before.
use co_usb.Prelude.{ℕ, ◌+◌, ◌≤◌, ◌<◌, min, ◌≡◌, refl, true, false, none, some, List, ◌∷◌, arith}
use co_usb.Prelude.Words.{add_size, inc_size, int_of_size, size_of_int, add_size_lt, size_mod}
use co_usb.Errors.{is_error}
use co_usb.Libusb
use co_usb.Transfer.Status.{Status, status_value}
use co_usb.Transfer.Record.{Transfer, Buffer, Store, update, is_isochronous}
use co_usb.Transfer.Complete.{
  Awaitable, Progress, at, put, submit_again, next_buffer, go_on, count_and_go, transfer_callback,
  transfer_error, subtotal_of,
}
use co_usb.Transfer.Complete.Entries.{at-put}
use co_usb.Transfer.Complete.Counting.{land}

-- The transfer ended well and is not isochronous, with `n` bytes.
pub record Arrived (tfer : Transfer) (n : ℕ) : Type 0 where
  pub kind : is_isochronous tfer.type ≡ false
  pub good : tfer.status ≡ status_value Status.completed
  pub bytes : size_of_int tfer.actual_length ≡ n

Arrived-lem :
    (tfer : Transfer) (n : ℕ)
    → Arrived tfer n
    → (transfer_error tfer ≡ none) × (subtotal_of tfer ≡ n)
unfolding transfer_error subtotal_of
Arrived-lem tfer n a = ground arith

-- The callback of a transfer whose bytes reach `expected`, where a buffer is left and libusb takes
-- the transfer: that buffer is taken, and the total stays.
pub record Moved (self : Awaitable) (t : ℕ) (b : Buffer) (rest : List Buffer) (total : ℕ)
    (out : Awaitable) (m' : Store) : Type 0 where
  pub buffers : out.buf_current ≡ rest
  pub sound : is_error out.ec ≡ false
  pub entry : at out.states t ≡ some (record { ptr = b.data_ptr; expected = b.size; total = total })
  pub target : (m' t).buffer ≡ b.data_ptr

pub full_moves_on :
    (self : Awaitable) (m : Store) (t n : ℕ) (prg : Progress) (b : Buffer) (rest : List Buffer)
    → is_error self.ec ≡ false
    → at self.states t ≡ some prg
    → Arrived (m t) n
    → prg.total + n < size_mod
    → prg.expected ≤ prg.total + n
    → self.buf_current ≡ b ∷ rest
    → (out : Awaitable) × (m' : Store) × (transfer_callback self m t Libusb.success
        ≡ some (out, m', true))
      × Moved self t b rest (prg.total + n) out m'
unfolding transfer_callback count_and_go go_on next_buffer submit_again
full_moves_on self m t n prg b rest clean found arrived fits full left =
    let (no_error, bytes) = Arrived-lem (m t) n arrived in
    let counted : Progress = record prg { total = add_size prg.total (subtotal_of (m t)) } in
    let fresh : Progress = record counted { ptr = b.data_ptr; expected = b.size } in
    let states = put self.states t counted in
    let out : Awaitable = record (land self) {
      buf_current = rest;
      states = put states t fresh;
      in_flight = inc_size (land self).in_flight;
    } in
    let m' : Store = update m t (record (m t) {
      buffer = b.data_ptr;
      length = int_of_size (min b.size self.single_transfer_limit);
    }) in
    let sum = add_size_lt prg.total n fits in
    (
      out,
      m',
      ground (arith, no_error, bytes, sum),
      record {
        buffers = refl;
        sound = clean;
        entry = ground (arith, at-put states t fresh t, bytes, sum);
        target = ground arith;
      },
    )

-- For a transfer that is not isochronous, with an entry in the progress and no error so far, whose
-- completion makes its total reach the size of its buffer, and a next buffer that is no larger than that
-- total, with another one behind it: if libusb takes the transfer again, it goes on with the next buffer;
-- and at its next completion, with any number of bytes, none included, that keeps the total below
-- 2^64, and with libusb taking it again, it goes on with the buffer behind, and no error is set.
pub stale_total_skips :
    (self : Awaitable) (m : Store) (t n : ℕ) (prg : Progress) (b b' : Buffer) (rest : List Buffer)
    → is_error self.ec ≡ false
    → at self.states t ≡ some prg
    → Arrived (m t) n
    → prg.expected ≤ prg.total + n
    → b.size ≤ prg.total + n
    → self.buf_current ≡ b ∷ b' ∷ rest
    → (n' : ℕ) → prg.total + n + n' < size_mod
    → (out : Awaitable) × (m' : Store) × (transfer_callback self m t Libusb.success
        ≡ some (out, m', true))
      × Moved self t b (b' ∷ rest) (prg.total + n) out m'
      × ((m₂ : Store)
          → Arrived (m₂ t) n'
          → (out' : Awaitable) × (m₂' : Store) × (transfer_callback out m₂ t Libusb.success
              ≡ some (out', m₂', true))
            × Moved out t b' rest (prg.total + n + n') out' m₂')
stale_total_skips self m t n prg b b' rest clean found arrived full small left n' fits =
    let (out, m', e, moved) =
      full_moves_on self m t n prg b (b' ∷ rest) clean found arrived (omega arith) full left in
    (
      out,
      m',
      e,
      moved,
      λ m₂ arrived'.
          full_moves_on out m₂ t n' _ b' rest moved.sound moved.entry arrived' fits (omega arith)
            moved.buffers,
    )
