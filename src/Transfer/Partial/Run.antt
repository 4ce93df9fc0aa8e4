-- ===== src/Transfer/Partial/Run.antt =====
-- The awaitable of include/co_usb/transfer/detail/sequence_awaitable.hpp with the transfers that
-- libusb holds: libusb ends them in any order, with any result, and calls the callback for each.
use co_usb.Prelude.{ℕ, ◌≡◌, some, List, [], ◌∷◌, ◌++◌, get_elem?, erase_at, if◌then◌else◌}
use co_usb.Prelude.Int.{ℤ}
use co_usb.Transfer.Record.{Transfer, Packet, Store, update}
use co_usb.Transfer.Partial.{Awaitable, transfer_callback}

-- What libusb writes into a transfer that it ends.
pub record Completion : Type 0 where
  pub status : ℤ
  pub actual_length : ℕ
  pub packets : List Packet

abbrev pub finish : Completion → Transfer → Transfer
finish c t = record t { status = c.status; actual_length = c.actual_length; packets = c.packets }

pub record Sys : Type 0 where
  pub self : Awaitable
  pub store : Store
  pub flying : List ℕ

-- Transfer `t`, the `i`-th in flight, ends by `c`; libusb answers a submission by `r`.
unfoldable pub deliver : Sys → ℕ → ℕ → Completion → ℤ → Sys
deliver s i t c r =
    let (self, m, accepted) =
      transfer_callback s.self (update s.store t (finish c (s.store t))) t r in
    record {
      self = self;
      store = m;
      flying = if accepted then erase_at s.flying i ++ t ∷ [] else erase_at s.flying i;
    }

pub data Step (s : Sys) (c : Completion) (u : Sys) : Type 0 where
  completes : (i t : ℕ) (r : ℤ) → get_elem? s.flying i ≡ some t → u ≡ deliver s i t c r → Step s c u

-- Runs by what libusb wrote, the latest first.
pub data Run (s : Sys) : List Completion → Sys → Type 0 where
  here : Run s [] s
  next :
      {cs : List Completion} {c : Completion} {u w : Sys}
      → Run s cs u
      → Step u c w
      → Run s (c ∷ cs) w
