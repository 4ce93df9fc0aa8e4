-- ===== src/Hotplug/DeviceAcceptor/Lifecycle/Loop.antt =====
-- The rounds of the loop of `shutdown` of include/co_usb/hotplug/device_acceptor.hpp, which unlocks the
-- mutex around each post.
use co_usb.Prelude.{ℕ, ◌≡◌, refl, List, [], ◌∷◌}
use co_usb.Errors.{operation_canceled}
use co_usb.Hotplug.DeviceAcceptor.{Acceptor, post_with, cancel_all, end_shutdown}

-- A round, with `rest` for what the loop has then still to post.
unfoldable pub cancel_next : ℕ → List ℕ → Acceptor → Acceptor
cancel_next r rest self =
    record (post_with self r (record (self.waiters r) { ec = operation_canceled })) {
      m_resumptions = rest;
    }

-- The two calls of `clear`, where the loop has posted all.
unfoldable pub clear_devices : Acceptor → Acceptor
clear_devices self = record self { m_resumptions = []; m_arrived_devices = [] }

-- The rounds of the loop one after the other.
unfoldable pub all_rounds : List ℕ → Acceptor → Acceptor
unfolding cancel_next clear_devices
all_rounds [] self = clear_devices self
all_rounds (r ∷ rest) self = all_rounds rest (cancel_next r rest self)

all_rounds-cancel_all :
    (rs : List ℕ) (self : Acceptor) (other : List ℕ)
    → all_rounds rs (record self { m_resumptions = other })
      ≡ record (cancel_all rs self) { m_resumptions = []; m_arrived_devices = [] }
unfolding all_rounds cancel_all cancel_next clear_devices
all_rounds-cancel_all [] self other = refl
all_rounds-cancel_all (r ∷ rs) self other =
    all_rounds-cancel_all rs
      (post_with self r (record (self.waiters r) { ec = operation_canceled })) rs

-- Without other steps between them, the rounds are the second part of `shutdown`.
pub all_rounds-end_shutdown :
    (self : Acceptor) → all_rounds self.m_resumptions self ≡ end_shutdown self
unfolding end_shutdown
all_rounds-end_shutdown self = all_rounds-cancel_all self.m_resumptions self self.m_resumptions
