-- ===== src/Transfer/Complete/Run.antt =====
-- The awaitable of include/co_usb/transfer/detail/complete_sequence_awaitable.hpp with the transfers
-- that libusb holds: libusb ends them in any order, with any result, and calls the callback for each.
use co_usb.Prelude.{
  ℕ, ◌≡◌, Option, none, some, List, [], ◌∷◌, ◌++◌, get_elem?, erase_at, if◌then◌else◌,
}
use co_usb.Prelude.Int.{ℤ}
use co_usb.Transfer.Record.{Store, update}
use co_usb.Transfer.Partial.Run.{Completion, finish}
use co_usb.Transfer.Complete.{Awaitable, transfer_callback}

pub record Sys : Type 0 where
  pub self : Awaitable
  pub store : Store
  pub flying : List ℕ

-- Transfer `t`, the `i`-th in flight, ends by `c`; libusb answers a submission by `r`. `none` is an
-- exception out of the callback.
unfoldable pub deliver : Sys → ℕ → ℕ → Completion → ℤ → Option Sys
deliver s i t c r = elim (transfer_callback s.self (update s.store t (finish c (s.store t))) t r) [
  | none ↦ none
  | some (self, m, accepted) ↦ some (record {
    self = self;
    store = m;
    flying = if accepted then erase_at s.flying i ++ t ∷ [] else erase_at s.flying i;
  })
]

pub data Step (s : Sys) (c : Completion) (u : Sys) : Type 0 where
  completes :
      (i t : ℕ) (r : ℤ) → get_elem? s.flying i ≡ some t → deliver s i t c r ≡ some u → Step s c u

-- Runs by what libusb wrote, the latest first.
pub data Run (s : Sys) : List Completion → Sys → Type 0 where
  here : Run s [] s
  next :
      {cs : List Completion} {c : Completion} {u w : Sys}
      → Run s cs u
      → Step u c w
      → Run s (c ∷ cs) w
